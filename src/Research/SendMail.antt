-- ===== src/Research/SendMail.antt =====
-- src/research/send_mail.cpp: the dialogue with a mail server. The addresses that `getaddrinfo`
-- gives, and what the calls on the socket give, are parameters.
pub mod Dialogue
pub mod Delivers
use ctguard.Base.{
  ℕ, zero, suc, ◌+◌, ◌-◌, Bool, true, false, List, [], ◌∷◌, ◌++◌, concat, Option, none, some, Bytes,
  codes, beq, ltb, ◌==◌, if◌then◌else◌, length, Outcome, ok, err, ◌>>=◌, ◌>>◌, guard,
}

pub data MailError : Type 0 where
  no_address no_welcome not_sent not_received too_long wrong_answer : MailError

-- Whether the n-th `send` succeeds, and what the n-th `recv` gives.
pub record Peer : Type 0 where
  pub can_send : ℕ → Bool
  pub answer : ℕ → Option Bytes

-- The calls so far, and what was sent by them.
pub record Talk : Type 0 where
  pub sends : ℕ
  pub receives : ℕ
  pub sent : List Bytes

abbrev pub fresh_talk : Talk
fresh_talk = record { sends = 0; receives = 0; sent = [] }

-- The loop over the addresses, with whether `socket` and `connect` succeed: a successful `connect`
-- gives 0 and a failed one -1, and the loop ends where it does not give 1.
unfoldable pub connect_first : List (Bool × Bool) → Option Bool
connect_first [] = none
connect_first ((opened, connected) ∷ more) =
    let rest = connect_first more in if opened then some connected else rest

-- The first n characters, and a text up to its first NUL.
unfoldable pub take : ℕ → Bytes → Bytes
take zero text = []
take (suc n) [] = []
take (suc n) (c ∷ cs) = c ∷ take n cs

unfoldable pub c_string : Bytes → Bytes
c_string [] = []
c_string (c ∷ cs) = let rest = c_string cs in if c == 0 then [] else c ∷ rest

-- `return_code.compare(0, n, buffer, 0, n) == 0`
unfoldable pub starts_with : Bytes → Bytes → Bool
unfolding take c_string beq
starts_with code reply = beq code (take (length code) (c_string reply))

abbrev pub line_end : Bytes
line_end = 13 ∷ 10 ∷ []

-- `"\r\n.\r\n"`
abbrev pub terminator : Bytes
terminator = 13 ∷ 10 ∷ b'.' ∷ 13 ∷ 10 ∷ []

unfoldable pub envelope : Bytes → Bytes → Bytes → Bytes → Bytes
envelope from to subject replyto = concat (
    codes "From: "
    ∷ from
    ∷ line_end
    ∷ codes "To: "
    ∷ to
    ∷ line_end
    ∷ codes "Subject: "
    ∷ subject
    ∷ line_end
    ∷ codes "X-Mailer: ctguard-notifier"
    ∷ line_end
    ∷ codes "Reply-To: "
    ∷ replyto
    ∷ line_end
    ∷ line_end
    ∷ [])

module _ (peer : Peer) where
  unfoldable pub say : Bytes → Talk → Outcome MailError Talk
  say text t =
      if peer.can_send t.sends
      then ok (record t { sends = t.sends + 1; sent = t.sent ++ (text ∷ []) })
      else err not_sent

  unfoldable pub hear : Talk → Outcome MailError (Bytes × Talk)
  hear t = elim (peer.answer t.receives) [
    | none ↦ err not_received
    | some reply ↦ ok (reply, record t { receives = t.receives + 1 })
  ]

  -- The answer fits into a buffer of the given size and starts with the code.
  unfoldable pub expect : ℕ → Bytes → Talk → Outcome MailError Talk
  unfolding hear starts_with
  expect size code t = do
    r ← hear t
    guard (ltb (length (r.0)) (size - 1)) too_long
    guard (starts_with code (r.0)) wrong_answer
    ok (r.1)

  unfoldable pub send_cmd : Bytes → Bytes → Talk → Outcome MailError Talk
  unfolding say expect
  send_cmd cmd code t = say cmd t >>= expect 2048 code

  unfoldable pub send_mail_message :
      Bytes → Bytes → Bytes → Bytes → Bytes → Bytes → Talk → Outcome MailError Talk
  unfolding say expect envelope
  send_mail_message from to subject replyto msg code t =
      say (envelope from to subject replyto) t
      >>= (λ t1. say msg t1 >>= (λ t2. say terminator t2 >>= expect 256 code))

  -- The dialogue on a connection.
  unfoldable pub converse : Bytes → Bytes → Bytes → Bytes → Bytes → Bytes → Outcome MailError Talk
  unfolding hear send_cmd send_mail_message
  converse hostname from to subject replyto msg = do
    welcome ← hear fresh_talk
    ehlo ← send_cmd (codes "EHLO " ++ (hostname ++ line_end)) (codes "250") (welcome.1)
    mail ← send_cmd (codes "MAIL From:<" ++ (from ++ (codes ">" ++ line_end))) (codes "250") ehlo
    rcpt ← send_cmd (codes "RCPT To:<" ++ (to ++ (codes ">" ++ line_end))) (codes "250") mail
    body ← send_cmd (codes "DATA" ++ line_end) (codes "354") rcpt
    done ← send_mail_message from to subject replyto msg (codes "250") body
    send_cmd (codes "QUIT" ++ line_end) (codes "221") done

  -- On a socket that is not connected, the first `recv` fails.
  unfoldable pub send_mail :
      List (Bool × Bool) → Bytes → Bytes → Bytes → Bytes → Bytes → Bytes → Outcome MailError Talk
  unfolding connect_first converse
  send_mail addresses hostname from to subject replyto msg = elim (connect_first addresses) [
    | none ↦ err no_address
    | some false ↦ err no_welcome
    | some true ↦ converse hostname from to subject replyto msg
  ]
