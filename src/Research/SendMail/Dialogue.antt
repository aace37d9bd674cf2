-- ===== src/Research/SendMail/Dialogue.antt =====
-- What is said in a dialogue that succeeds.
use ctguard.Base.{
  ℕ, ◌-◌, ◌≡◌, sym, ap, ◌∙◌, Bool, true, false, List, [], ◌∷◌, ◌++◌, append_assoc, Option-cases,
  inl, inr, Bytes, codes, ltb, length, Outcome, ◌>>=◌, Post, Post-bind, Post-guard, Post-weaken,
  Whatever, arith, append-nil,
}
use ctguard.Research.SendMail.{
  MailError, Peer, Talk, fresh_talk, say, hear, expect, send_cmd, send_mail_message, converse,
  send_mail, connect_first, too_long, wrong_answer, envelope, line_end, terminator, starts_with,
}

-- The step sends the texts.
abbrev Says : List Bytes → (Talk → Outcome MailError Talk) → Type 0
Says texts step = (t : Talk) → Post Whatever (λ (x : Talk). x.sent ≡ t.sent ++ texts) (step t)

Says-then :
    (xs ys : List Bytes) (f g : Talk → Outcome MailError Talk)
    → Says xs f
    → Says ys g
    → Says (xs ++ ys) (λ t. f t >>= g)
Says-then xs ys f g p q t =
    let End : Talk → Type 0 = λ x. x.sent ≡ t.sent ++ (xs ++ ys) in
    Post-bind Whatever (λ (x : Talk). x.sent ≡ t.sent ++ xs) End (f t) g (p t)
      (λ t1 e.
        Post-weaken Whatever End (λ (x : Talk). x.sent ≡ t1.sent ++ ys) (g t1)
          (λ x d. d ∙ ap (λ s. s ++ ys) e ∙ append_assoc t.sent xs ys) (q t1))

module _ (peer : Peer) where
  say-Says : (text : Bytes) → Says (text ∷ []) (say peer text)
  unfolding say
  say-Says text t = ground arith

  hear-sent : (t : Talk) → Post Whatever (λ r. r.1.sent ≡ t.sent ++ []) (hear peer t)
  unfolding hear
  hear-sent t = elim (Option-cases (peer.answer t.receives)) [
    | inl e ↦ rw (e, hear) tt
    | inr (r, e) ↦ rw (e, hear) (sym (append-nil t.sent))
  ]

  expect-Says : (size : ℕ) (code : Bytes) → Says [] (expect peer size code)
  unfolding expect
  expect-Says size code t =
      let End : Talk → Type 0 = λ x. x.sent ≡ t.sent ++ [] in
      Post-bind Whatever (λ r. r.1.sent ≡ t.sent ++ []) End (hear peer t) _ (hear-sent t)
        (λ r e.
          Post-guard End (ltb (length r.0) (size - 1)) too_long _
            (λ short. Post-guard End (starts_with code r.0) wrong_answer _ (λ right. e)))

  send_cmd-Says : (cmd code : Bytes) → Says (cmd ∷ []) (send_cmd peer cmd code)
  unfolding send_cmd
  send_cmd-Says cmd code =
      Says-then (cmd ∷ []) [] (say peer cmd) (expect peer 2048 code) (say-Says cmd)
        (expect-Says 2048 code)

  module _ (hostname from to subject replyto msg : Bytes) where
    message-Says :
        (code : Bytes)
        → Says
            (envelope from to subject replyto ∷ msg ∷ terminator ∷ [])
            (send_mail_message peer from to subject replyto msg code)
    unfolding send_mail_message
    message-Says code =
        Says-then (envelope from to subject replyto ∷ []) (msg ∷ terminator ∷ []) (say peer _) _
          (say-Says _)
          (Says-then (msg ∷ []) (terminator ∷ []) (say peer msg) _ (say-Says msg) (
            Says-then (terminator ∷ []) [] (say peer terminator) (expect peer 256 code)
              (say-Says terminator) (expect-Says 256 code)))

    -- What goes over the connection if the dialogue succeeds.
    abbrev pub dialogue : List Bytes
    dialogue =
        (codes "EHLO " ++ (hostname ++ line_end))
        ∷ (codes "MAIL From:<" ++ (from ++ (codes ">" ++ line_end)))
        ∷ (codes "RCPT To:<" ++ (to ++ (codes ">" ++ line_end)))
        ∷ (codes "DATA" ++ line_end)
        ∷ envelope from to subject replyto
        ∷ msg
        ∷ terminator
        ∷ (codes "QUIT" ++ line_end)
        ∷ []

    converse-Says :
        Post Whatever
          (λ (t : Talk). t.sent ≡ dialogue)
          (converse peer hostname from to subject replyto msg)
    unfolding converse
    converse-Says =
        let c250 = codes "250" in
        let e = codes "EHLO " ++ (hostname ++ line_end) in
        let m = codes "MAIL From:<" ++ (from ++ (codes ">" ++ line_end)) in
        let r = codes "RCPT To:<" ++ (to ++ (codes ">" ++ line_end)) in
        let d = codes "DATA" ++ line_end in
        let q = codes "QUIT" ++ line_end in
        let body = envelope from to subject replyto ∷ msg ∷ terminator ∷ [] in
        let chain =
          Says-then (e ∷ []) (m ∷ r ∷ d ∷ (body ++ (q ∷ []))) (send_cmd peer e c250) _
            (send_cmd-Says e c250)
            (Says-then (m ∷ []) (r ∷ d ∷ (body ++ (q ∷ []))) (send_cmd peer m c250) _
              (send_cmd-Says m c250)
              (Says-then (r ∷ []) (d ∷ (body ++ (q ∷ []))) (send_cmd peer r c250) _
                (send_cmd-Says r c250)
                (Says-then (d ∷ []) (body ++ (q ∷ [])) (send_cmd peer d (codes "354")) _
                  (send_cmd-Says d (codes "354"))
                  (Says-then body (q ∷ []) (send_mail_message peer from to subject replyto msg c250)
                    _ (message-Says c250) (send_cmd-Says q (codes "221")))))) in
        Post-bind Whatever (λ x. x.1.sent ≡ []) (λ (t : Talk). t.sent ≡ dialogue)
          (hear peer fresh_talk) _ (hear-sent fresh_talk)
          (λ w s.
            Post-weaken Whatever (λ (t : Talk). t.sent ≡ dialogue)
              (λ (t : Talk). t.sent ≡ w.1.sent ++ dialogue) _ (λ x f. f ∙ ap (λ z. z ++ dialogue) s)
              (chain w.1))

    -- If a mail gets through, exactly the dialogue was sent, in this order: the greeting, the sender,
    -- the receiver, the headers, the message as it stands, the terminator and the end.
    pub send_mail-dialogue :
        (addresses : List (Bool × Bool))
        → Post Whatever
            (λ (t : Talk). t.sent ≡ dialogue)
            (send_mail peer addresses hostname from to subject replyto msg)
    unfolding send_mail
    send_mail-dialogue addresses = elim (Option-cases (connect_first addresses)) [
      | inl e ↦ rw (e, send_mail) tt
      | inr (true, e) ↦ rw (e, send_mail) converse-Says
      | inr (false, e) ↦ rw (e, send_mail) tt
    ]
