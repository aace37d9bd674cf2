-- ===== src/Research/SendMail/Delivers.antt =====
-- A server that accepts a mail is given it.
use ctguard.Base.{
  ℕ, ◌+◌, ◌-◌, ◌≡◌, refl, Bool, true, List, [], ◌∷◌, ◌++◌, some, Bytes, codes, ltb, length, ok,
  Post-eq-ok,
}
use ctguard.Research.SendMail.{
  Peer, Talk, fresh_talk, say, hear, expect, send_cmd, send_mail_message, converse, send_mail,
  connect_first, envelope, line_end, terminator, starts_with,
}
use ctguard.Research.SendMail.Dialogue.{dialogue, send_mail-dialogue}

module _ (peer : Peer) where
  -- The n-th answer fits into a buffer of the size and starts with the code.
  abbrev pub Answers : ℕ → ℕ → Bytes → Type 0
  Answers n size code =
      (r : Bytes) × (peer.answer n ≡ some r)
      × (ltb (length r) (size - 1) ≡ true)
      × (starts_with code r ≡ true)

  -- The server takes all that is sent, and says what RFC 5321 has for success.
  pub record Accepts : Type 0 where
    pub ready : (n : ℕ) → peer.can_send n ≡ true
    pub welcome : (r : Bytes) × (peer.answer 0 ≡ some r)
    pub ehlo : Answers 1 2048 (codes "250")
    pub mail : Answers 2 2048 (codes "250")
    pub rcpt : Answers 3 2048 (codes "250")
    pub start : Answers 4 2048 (codes "354")
    pub body : Answers 5 256 (codes "250")
    pub quit : Answers 6 2048 (codes "221")

  module _ (ready : (n : ℕ) → peer.can_send n ≡ true) where
    say-ok :
        (text : Bytes) (t : Talk)
        → say peer text t ≡ ok (record t { sends = t.sends + 1; sent = t.sent ++ (text ∷ []) })
    unfolding say
    say-ok text t = rw (ready t.sends)

    expect-ok :
        (size : ℕ) (code : Bytes) (t : Talk)
        → Answers t.receives size code
        → expect peer size code t ≡ ok (record t { receives = t.receives + 1 })
    unfolding expect hear
    expect-ok size code t (r, e, short, right) = rw (e, hear) (rw (short, right))

    send_cmd-ok :
        (cmd code : Bytes) (t : Talk)
        → Answers t.receives 2048 code
        → send_cmd peer cmd code t
          ≡ ok (record {
            sends = t.sends + 1;
            receives = t.receives + 1;
            sent = t.sent ++ (cmd ∷ []);
          })
    unfolding send_cmd
    send_cmd-ok cmd code t a = rw (say-ok cmd t) (expect-ok 2048 code _ a)

    message-ok :
        (from to subject replyto msg code : Bytes) (t : Talk)
        → Answers t.receives 256 code
        → (next : Talk) × (send_mail_message peer from to subject replyto msg code t ≡ ok next)
          × (next.receives ≡ t.receives + 1)
    unfolding send_mail_message
    message-ok from to subject replyto msg code t a =
        let t1 = record t {
          sends = t.sends + 1;
          sent = t.sent ++ (envelope from to subject replyto ∷ []);
        } in
        let t2 = record t1 { sends = t1.sends + 1; sent = t1.sent ++ (msg ∷ []) } in
        let t3 = record t2 { sends = t2.sends + 1; sent = t2.sent ++ (terminator ∷ []) } in
        (
          record t3 { receives = t3.receives + 1 },
          rw (say-ok (envelope from to subject replyto) t)
              (rw (say-ok msg t1) (rw (say-ok terminator t2) (expect-ok 256 code t3 a))),
          refl,
        )

  hear-ok :
      (r : Bytes) (t : Talk)
      → peer.answer t.receives ≡ some r
      → hear peer t ≡ ok (r, record t { receives = t.receives + 1 })
  unfolding hear
  hear-ok r t e = rw (e, hear)

  -- A command more, and its answer.
  abbrev after : Bytes → Talk → Talk
  after cmd t = record {
    sends = t.sends + 1;
    receives = t.receives + 1;
    sent = t.sent ++ (cmd ∷ []);
  }

  converse-ok :
      (hostname from to subject replyto msg : Bytes)
      → Accepts
      → (t : Talk) × (converse peer hostname from to subject replyto msg ≡ ok t)
  unfolding converse
  converse-ok hostname from to subject replyto msg h =
      let (r0, e0) = h.welcome in
      let w = record fresh_talk { receives = 1 } in
      let heard : hear peer fresh_talk ≡ ok (r0, w) = hear-ok r0 fresh_talk e0 in
      let t1 = after (codes "EHLO " ++ (hostname ++ line_end)) w in
      let t2 = after (codes "MAIL From:<" ++ (from ++ (codes ">" ++ line_end))) t1 in
      let t3 = after (codes "RCPT To:<" ++ (to ++ (codes ">" ++ line_end))) t2 in
      let t4 = after (codes "DATA" ++ line_end) t3 in
      let (t5, e5, n5) = message-ok h.ready from to subject replyto msg (codes "250") t4 h.body in
      (
        after (codes "QUIT" ++ line_end) t5,
        rw (heard, send_cmd-ok h.ready _ (codes "250") w h.ehlo)
            (rw (send_cmd-ok h.ready _ (codes "250") t1 h.mail) (
              rw (send_cmd-ok h.ready _ (codes "250") t2 h.rcpt) (
                rw (send_cmd-ok h.ready _ (codes "354") t3 h.start)
                  (rw e5 (send_cmd-ok h.ready _ (codes "221") t5 (rw n5 h.quit)))))),
      )

  -- Over a connection to a server that accepts the mail, send_mail returns, and what was sent is
  -- exactly the dialogue: the greeting, the sender, the receiver, the headers, the message as it
  -- stands, the terminator and the end, in this order.
  pub send_mail-delivers :
      (addresses : List (Bool × Bool)) (hostname from to subject replyto msg : Bytes)
      → connect_first addresses ≡ some true
      → Accepts
      → (t : Talk) × (send_mail peer addresses hostname from to subject replyto msg ≡ ok t)
        × (t.sent ≡ dialogue peer hostname from to subject replyto msg)
  unfolding send_mail
  send_mail-delivers addresses hostname from to subject replyto msg connected h =
      let (t, e) = converse-ok hostname from to subject replyto msg h in
      let sent : send_mail peer addresses hostname from to subject replyto msg ≡ ok t =
        rw (connected, send_mail) e in
      (
        t,
        sent,
        Post-eq-ok (λ (x : Talk). x.sent ≡ dialogue peer hostname from to subject replyto msg) _
            (send_mail-dialogue peer hostname from to subject replyto msg addresses) sent,
      )
