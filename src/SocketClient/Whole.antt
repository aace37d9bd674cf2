-- ===== src/SocketClient/Whole.antt =====
-- What a connection took when `send` returns.
use ctguard.Base.{
  ℕ, zero, suc, ◌≡◌, refl, ◌∙◌, ap, true, List, [], ◌∷◌, ◌++◌, Bytes, if-cases, if-both, Outcome,
  ok, err,
}
use ctguard.SocketClient.{
  Turn, Progress, returned, SocketError, connect, cut, sendall, reconnect, send,
}

cut-splits : (n : ℕ) (text : Bytes) → (cut n text).0 ++ (cut n text).1 ≡ text
unfolding cut
cut-splits zero text = refl
cut-splits (suc n) [] = refl
cut-splits (suc n) (c ∷ cs) = ap (◌∷◌ c) (cut-splits n cs)

sendall-whole :
    (counts : List ℕ) (message : Bytes)
    → (sendall counts message).0 ≡ true
    → (sendall counts message).1 ≡ message
unfolding sendall
sendall-whole counts [] h = refl
sendall-whole [] (c ∷ cs) h = cc
sendall-whole (n ∷ ns) (c ∷ cs) h =
    ap (λ x. (cut n (c ∷ cs)).0 ++ x) (sendall-whole ns (cut n (c ∷ cs)).1 h)
    ∙ cut-splits n (c ∷ cs)

-- If it has returned, the last connection took the message.
abbrev EndsWith : Bytes → List Bytes × Progress → Type 0
EndsWith message r = r.1 ≡ returned → (before : List Bytes) × (r.0 ≡ before ++ (message ∷ []))

reconnect-EndsWith :
    (c : Outcome SocketError (Unit {0})) (taken message : Bytes) (rest : List Bytes × Progress)
    → EndsWith message rest
    → EndsWith message (reconnect c taken rest)
unfolding reconnect
reconnect-EndsWith (ok u) taken message (more, end) later h =
    let (before, same) = later h in (taken ∷ before, ap (◌∷◌ taken) same)
reconnect-EndsWith (err e) taken message (more, end) later h = cc

send-EndsWith : (ts : List Turn) (message : Bytes) → EndsWith message (send ts message)
unfolding send
send-EndsWith [] message = λ h. cc
send-EndsWith (t ∷ ts) message =
    if-cases (EndsWith message) ((sendall t.counts message).0) _ _
      (λ through h. ([], ap (λ x. x ∷ []) (sendall-whole t.counts message through)))
      (λ failed.
        if-both (EndsWith message) t.lost _ _
          (reconnect-EndsWith (connect t.opened t.connected) _ message (send ts message)
            (send-EndsWith ts message))
          (λ h. cc))

-- When send returns, the last of its connections took the whole message, each character once and in
-- order, however many connections were lost before it.
pub send-whole :
    (ts : List Turn) (message : Bytes)
    → (send ts message).1 ≡ returned
    → (before : List Bytes) × ((send ts message).0 ≡ before ++ (message ∷ []))
send-whole = send-EndsWith
