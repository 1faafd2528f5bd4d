-- ===== src/Tests/Sockets.antt =====
-- Sockets that give and take a few bytes at a time.
use s_rpc.Base.{
  ℕ, ◌+◌, ◌≤◌, ◌<◌, ◌≡◌, ◌⊎◌, refl, sym, ap, List, [], ◌∷◌, ◌++◌, arith, length, take, drop, min,
  take-append-drop, length-take, true,
}
use s_rpc.Base.Outcome.{done}
use s_rpc.Marshal.Wire.{State}
use s_rpc.Marshal.Wire.Scalars.{Valid, pending}
use s_rpc.Marshal.Socket.{Socket, InOrder, read_from_fd, write_to_fd}
use s_rpc.Marshal.Socket.Incoming.{read_from_fd_lem}
use s_rpc.Marshal.Socket.Outgoing.{write_to_fd_lem}
use s_rpc.Server.Events.{Session}
use s_rpc.Tests.Calls.{nothing, holding, holding_lem, idle_connection}

-- What can be received, and what was sent.
abbrev Ends : Type 0
Ends = List ℕ × List ℕ

-- Three bytes at most are received, and two are sent, in one call.
abbrev slow : Socket Ends
slow = record {
  receive = λ n s. (take (min n 3) s.0, (drop (min n 3) s.0, s.1));
  send = λ p s. (min 2 (length p), (s.0, s.1 ++ take (min 2 (length p)) p));
}

receive_few : (n : ℕ) (s : Ends) → length (take (min n 3) s.0) ≤ n
receive_few n s = omega (arith, length-take (min n 3) s.0)

send_few : (p : List ℕ) → min 2 (length p) ≤ length p
send_few p = omega arith

abbrev slow_law : InOrder slow
slow_law = record {
  ahead = λ s. s.0;
  behind = λ s. s.1;
  receive_le = receive_few;
  receive_next = λ n s. sym (take-append-drop (min n 3) s.0);
  send_le = λ p s. send_few p;
  send_next = λ p s. refl;
}

abbrev five : Ends
five = (1 ∷ 2 ∷ 3 ∷ 4 ∷ 5 ∷ [], [])

read_from_fd_lem_example :
    (n : ℕ) × (u : State) × (s : Ends) × (read_from_fd slow 6 (holding (9 ∷ [])) five
      ≡ done (n, u, s))
    × (pending u ++ s.0 ≡ pending (holding (9 ∷ [])) ++ 1 ∷ 2 ∷ 3 ∷ 4 ∷ 5 ∷ [])
    × (length (pending u) ≡ length (pending (holding (9 ∷ []))) + n)
    × Valid u
    × ((k : ℕ) × (z : Ends) × (0 < k) × (slow.receive k z ≡ ([], s)))
read_from_fd_lem_example =
    read_from_fd_lem slow slow_law 6 (holding (9 ∷ [])) five (holding_lem (9 ∷ [])).1 (omega arith)

write_to_fd_lem_example :
    (n : ℕ) × (u : State) × (s : Ends) × (write_to_fd slow 4 (holding (7 ∷ 8 ∷ 9 ∷ [])) five
      ≡ done (n, u, s))
    × (s.1 ++ pending u ≡ pending (holding (7 ∷ 8 ∷ 9 ∷ [])))
    × (length (pending u) + n ≡ length (pending (holding (7 ∷ 8 ∷ 9 ∷ []))))
    × Valid u
    × ((pending u ≡ []) ⊎ ((p : List ℕ) × (z : Ends) × (slow.send p z ≡ (0, s))))
write_to_fd_lem_example =
    write_to_fd_lem slow slow_law 4 (holding (7 ∷ 8 ∷ 9 ∷ [])) five (holding_lem (7 ∷ 8 ∷ 9 ∷ [])).1
      (omega (arith, ap length (holding_lem (7 ∷ 8 ∷ 9 ∷ [])).0))

abbrev session : Session
session = record { is_connected = true; in_ = nothing; conn = idle_connection }

abbrev on_the_way : Ends
on_the_way = (1 ∷ 0 ∷ 0 ∷ 0 ∷ 3 ∷ 5 ∷ 0 ∷ 0 ∷ 0 ∷ 4 ∷ 9 ∷ 0 ∷ 0 ∷ 0 ∷ [], [])
