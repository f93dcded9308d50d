-- ===== src/Streams/Tests.antt =====
-- The lists of network/tcp_server.c: runs, and the theorems at concrete inputs.
use libeasy.Prelude.{◌≡◌, refl, none, some, [], ◌∷◌}
use libeasy.Prelude.Int.{pos, ◌+ℤ◌, ◌-ℤ◌}
use libeasy.Streams.{
  Store, Chain, empty, delete_stream, add_stream, unlink_last, unlink_next, add_at,
}
use libeasy.Streams.Chains.{IsChain, Changed, empty-IsChain}
use libeasy.Streams.Delete.{delete_stream-Changed}
use libeasy.Streams.Add.{add_stream-Changed}

abbrev blank : Store
blank = λ i. record { last = none; next = none }

-- The list 5, 6, 7, built by three calls.
abbrev three : Store × Chain
three = add_stream 7 (add_stream 6 (add_stream 5 (blank, empty)))

three-IsChain : IsChain (three.0) (three.1) (5 ∷ 6 ∷ 7 ∷ [])
three-IsChain =
    let h = add_stream 5 (blank, empty) in
    let g = add_stream 6 h in
    let one = add_stream-Changed blank empty 5 [] (empty-IsChain blank) refl in
    let two = add_stream-Changed (h.0) (h.1) 6 (5 ∷ []) one.now_is refl in
    (add_stream-Changed (g.0) (g.1) 7 (5 ∷ 6 ∷ []) two.now_is refl).now_is

delete_test : (delete_stream 6 three).1 ≡ record { head = some 5; tail = some 7; num = pos 2 }
unfolding delete_stream add_stream unlink_last unlink_next add_at ◌+ℤ◌ ◌-ℤ◌
delete_test = refl

delete_stream-Changed_example :
    Changed (three.0) (delete_stream 6 three) (5 ∷ 6 ∷ 7 ∷ []) (5 ∷ 7 ∷ [])
delete_stream-Changed_example =
    delete_stream-Changed (three.0) (three.1) 6 (5 ∷ []) (7 ∷ []) three-IsChain
