-- ===== src/Tests/Fcgi.antt =====
-- Runs of src/fastcgi/halmos_fcgi_proto.c and src/fastcgi/halmos_fcgi_pool.c.
use halmos.Base.Int.{pos}
use halmos.Base.{true, ℕ, ◌≤◌, ◌≡◌, List, [], ◌∷◌, ◌++◌, some, codes, length, arith}
use halmos.Fcgi.{fcgi_proto_send_stdin}
use halmos.Fcgi.Pool.{Group, Pool, fcgi_pool_init, fcgi_pool_conn_acquire, fcgi_pool_conn_release}
use halmos.Fcgi.Pool.Exclusive.{hand_out, take_back}
use halmos.Fcgi.Pairs.{add_pairs, fitting, pair_size, read_pairs, read_pairs-add_pairs}
use halmos.Fcgi.Stdin.{read_stdin, read-send_stdin}

read-send_stdin_example :
    read_stdin 4 7 (fcgi_proto_send_stdin 7 (codes "abc") ++ (1 ∷ 5 ∷ []))
    ≡ some (codes "abc", 1 ∷ 5 ∷ [])
read-send_stdin_example = read-send_stdin 7 (codes "abc") (1 ∷ 5 ∷ []) (omega arith)

-- The second pair does not fit into twelve bytes.
abbrev pairs : List (List ℕ × List ℕ)
pairs = (codes "A", codes "bc") ∷ (codes "LONGER", codes "value") ∷ (codes "D", []) ∷ []

read_pairs-add_pairs_example :
    (length (add_pairs 12 [] pairs) ≤ 12)
    × (read_pairs 3 (add_pairs 12 [] pairs) ≡ some (fitting 12 0 pairs))
unfolding pair_size
read_pairs-add_pairs_example =
    read_pairs-add_pairs 12 pairs (omega arith, (omega arith, (omega arith, tt)))

abbrev one_group : ℕ → Group
one_group i = record { ips = codes "127.0.0.1" ∷ []; ports = pos 9000 ∷ [] }

abbrev two_slots : Pool
two_slots = fcgi_pool_init 2 (λ i. pos 1) one_group

-- The socket 7, made, lent, given back and found again.
abbrev idle : Pool
idle =
    fcgi_pool_conn_release
      (fcgi_pool_conn_acquire two_slots (λ i. true) (codes "127.0.0.1") (pos 9000) (some 7)).0 7
      true

abbrev none_taken : ℕ → ℕ
none_taken fd = 0

abbrev back : ℕ → ℕ
back = take_back 7 (
    hand_out
      (fcgi_pool_conn_acquire two_slots (λ i. true) (codes "127.0.0.1") (pos 9000) (some 7)).1
      none_taken)
