-- ===== src/Execution.antt =====
-- go-api/internal/execution/execution.go: the simulated execution, and the hash of hash/fnv that
-- decides it. A payment id is ASCII, so its bytes are its code points.
use chain_route.Prelude.{ℕ, ◌*◌, ◌%◌, ◌^◌, String, Bool, true, false, List, [], ◌∷◌, eqb}
use Prim.Native.Nat.{bit_xor}
use Prim.Native.Char.{code}

abbrev pub codes : String → List ℕ
codes String.[] = []
codes (String.◌∷◌ c s) = code c ∷ codes s

abbrev pub offset64 : ℕ
offset64 = 14695981039346656037

abbrev prime64 : ℕ
prime64 = 1099511628211

-- fnv.New64a: for each byte, xor it in, then multiply modulo 2^64.
unfoldable pub fnv_1a : ℕ → List ℕ → ℕ
fnv_1a h [] = h
fnv_1a h (c ∷ cs) = fnv_1a (bit_xor h c * prime64 % 2 ^ 64) cs

-- execution.Execute: `false` is Success: false, with the one reason "simulated execution failure".
unfoldable pub execute : String → Bool
unfolding fnv_1a
execute payment_id = elim (eqb (fnv_1a offset64 (codes payment_id) % 10) 0) [
  | true ↦ false
  | false ↦ true
]
