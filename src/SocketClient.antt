-- ===== src/SocketClient.antt =====
-- src/libs/unix_socket_client.cpp: how a message is sent, with a new connection where one is lost.
-- The results of the calls on the socket are parameters.
pub mod Whole
use ctguard.Base.{
  ℕ, zero, suc, Bool, true, false, List, [], ◌∷◌, ◌++◌, Bytes, length, leb, if◌then◌else◌, Outcome,
  ok, err, ◌>>=◌, ◌>>◌, guard,
}

pub data SocketError : Type 0 where
  path_too_long no_socket not_connected not_sent : SocketError

-- `connect`, with the success of `socket` and of `connect`.
unfoldable pub connect : Bool → Bool → Outcome SocketError (Unit {0})
connect opened connected = guard opened no_socket >> guard connected not_connected

-- The constructor; `room` is what `sun_path` can hold before its NUL.
unfoldable pub unix_socket_client : ℕ → Bytes → Bool → Bool → Outcome SocketError (Unit {0})
unfolding connect
unix_socket_client room socket_path opened connected =
    guard (leb (length socket_path) room) path_too_long >> connect opened connected

-- What a call takes, and what is left.
unfoldable pub cut : ℕ → Bytes → Bytes × Bytes
cut zero text = ([], text)
cut (suc n) [] = ([], [])
cut (suc n) (c ∷ cs) = let (taken, left) = cut n cs in (c ∷ taken, left)

-- The calls of `::send` take so many characters each, and then one fails, if the message is not
-- through before: whether it is, and what was taken.
unfoldable pub sendall : List ℕ → Bytes → Bool × Bytes
unfolding cut
sendall counts [] = (true, [])
sendall [] (c ∷ cs) = (false, [])
sendall (n ∷ ns) (c ∷ cs) =
    let (taken, left) = cut n (c ∷ cs) in
    let (through, more) = sendall ns left in (through, taken ++ more)

-- A turn of the loop in `send`: the calls of `::send`, whether `errno` is `ENOTCONN` or
-- `ECONNREFUSED` after one that fails, and how the new connection goes.
pub record Turn : Type 0 where
  pub counts : List ℕ
  pub lost : Bool
  pub opened : Bool
  pub connected : Bool

-- Where `send` stands after the turns.
pub data Progress : Type 0 where
  retrying returned : Progress
  thrown : SocketError → Progress

-- After a call that failed with the connection: `close(); connect();`, and the turns to come.
unfoldable pub reconnect :
    Outcome SocketError (Unit {0}) → Bytes → List Bytes × Progress → List Bytes × Progress
reconnect (ok u) taken (more, end) = (taken ∷ more, end)
reconnect (err e) taken (more, end) = (taken ∷ [], thrown e)

-- What each connection took, and where `send` stands.
unfoldable pub send : List Turn → Bytes → List Bytes × Progress
unfolding sendall connect reconnect
send [] message = ([], retrying)
send (t ∷ ts) message =
    let (through, taken) = sendall t.counts message in
    let rest = send ts message in
    if through
    then (taken ∷ [], returned)
    else if t.lost
    then reconnect (connect t.opened t.connected) taken rest
    else (taken ∷ [], thrown not_sent)
