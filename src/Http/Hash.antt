-- ===== src/Http/Hash.antt =====
-- BKDRhash of http.c, and the hash of the parser that it is compared with.
use leactor.Prelude.{
  ℕ, ◌+◌, ◌*◌, ◌-◌, ◌^◌, ◌<◌, ◌≡◌, ◌≢◌, refl, true, ltb, if◌then◌else◌, List, [], ◌∷◌, arith,
}
use leactor.Request.{int32}
use leactor.Parse.HeaderLine.{ngx_hash, lowcase}
use leactor.Parse.HeaderLine.Rounds.{name_hash, ascii_lower}
use leactor.Parse.Text.{All}

-- A `char` added to an `unsigned`: its sign is extended.
abbrev of_char : ℕ → ℕ
of_char ch = if ltb ch 128 then ch else ch + 2 ^ 32 - 256

hash_from : ℕ → List ℕ → ℕ
hash_from hash [] = hash
hash_from hash (ch ∷ chs) = hash_from (int32 (hash * 31 + of_char ch)) chs

-- BKDRhash(str, length), on the `length` bytes at `str`.
unfoldable pub bkdr_hash : List ℕ → ℕ
unfolding hash_from
bkdr_hash str = hash_from 0 str

-- HostHash: sizeof("Host") counts the NUL.
abbrev pub host_hash : ℕ
host_hash = bkdr_hash (b'H' ∷ b'o' ∷ b's' ∷ b't' ∷ 0 ∷ [])

-- A byte of a name in lower case, as the parser hashes it.
abbrev pub IsLower : ℕ → Type 0
IsLower c = (c < 128) × (ascii_lower c ≡ c)

hash_from-name_hash :
    (h : ℕ) (name : List ℕ) → All IsLower name → hash_from h name ≡ name_hash h name
unfolding hash_from name_hash ngx_hash
hash_from-name_hash h [] all = refl
hash_from-name_hash h (c ∷ cs) ((ascii, lower), all) =
    let test : ltb c 128 ≡ true = ground arith in
    rw (test, lower) (hash_from-name_hash (int32 (h * 31 + c)) cs all)

-- On a name in lower case BKDRhash is the hash that the parser computes for it.
bkdr_hash-name_hash : (name : List ℕ) → All IsLower name → bkdr_hash name ≡ name_hash 0 name
unfolding bkdr_hash
bkdr_hash-name_hash name all = hash_from-name_hash 0 name all

-- The hash for "Host" is not the one that the parser computes for that name.
host_hash_differs : host_hash ≢ name_hash 0 (b'H' ∷ b'o' ∷ b's' ∷ b't' ∷ [])
unfolding bkdr_hash name_hash ngx_hash lowcase
host_hash_differs e = omega arith
