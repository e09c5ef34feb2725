-- ===== src/Parse/RequestLine/Method.antt =====
-- The method names of a request line: the switch on the name's length in ngx_http_parse_request_line.
use leactor.Prelude.{ℕ, ◌+◌, Ptr, Bool, true, ◌==◌, ◌&&◌, if◌then◌else◌, List, [], ◌∷◌}
use leactor.Request.{Bytes}

-- The bit that ngx_http_request.h gives each method.
abbrev pub http_get : ℕ
http_get = 0x0002

-- The byte-wise ngx_str3_cmp to ngx_str9cmp: the bytes at `m` are those given.
unfoldable pub str_cmp : Bytes → Ptr → List ℕ → Bool
str_cmp mem m [] = true
str_cmp mem m (c ∷ cs) = mem m == c && str_cmp mem (m + 1) cs

-- ngx_str3Ocmp, which leaves out the second byte.
unfoldable pub str3_o_cmp : Bytes → Ptr → (c0 c2 c3 : ℕ) → Bool
str3_o_cmp mem m c0 c2 c3 = mem m == c0 && mem (m + 2) == c2 && mem (m + 3) == c3

method4 : Bytes → Ptr → ℕ → ℕ
method4 mem m old =
    if mem (m + 1) == b'O'
    then (if str3_o_cmp mem m b'P' b'S' b'T'
        then 0x0008
        else if str3_o_cmp mem m b'C' b'P' b'Y'
        then 0x0080
        else if str3_o_cmp mem m b'M' b'V' b'E'
        then 0x0100
        else if str3_o_cmp mem m b'L' b'C' b'K'
        then 0x1000
        else old)
    else (if str_cmp mem m (b'H' ∷ b'E' ∷ b'A' ∷ b'D' ∷ []) then 0x0004 else old)

method5 : Bytes → Ptr → ℕ → ℕ
method5 mem m old =
    if str_cmp mem m (b'M' ∷ b'K' ∷ b'C' ∷ b'O' ∷ b'L' ∷ [])
    then 0x0040
    else if str_cmp mem m (b'P' ∷ b'A' ∷ b'T' ∷ b'C' ∷ b'H' ∷ [])
    then 0x4000
    else if str_cmp mem m (b'T' ∷ b'R' ∷ b'A' ∷ b'C' ∷ b'E' ∷ [])
    then 0x8000
    else old

method6 : Bytes → Ptr → ℕ → ℕ
method6 mem m old =
    if str_cmp mem m (b'D' ∷ b'E' ∷ b'L' ∷ b'E' ∷ b'T' ∷ b'E' ∷ [])
    then 0x0020
    else if str_cmp mem m (b'U' ∷ b'N' ∷ b'L' ∷ b'O' ∷ b'C' ∷ b'K' ∷ [])
    then 0x2000
    else old

-- The method of the name of `n` bytes at `m`; a name that is not known leaves `old`.
unfoldable pub find_method : Bytes → Ptr → (n old : ℕ) → ℕ
unfolding str_cmp str3_o_cmp method4 method5 method6
find_method mem m n old =
    if n == 3
    then (if str_cmp mem m (b'G' ∷ b'E' ∷ b'T' ∷ [])
        then http_get
        else if str_cmp mem m (b'P' ∷ b'U' ∷ b'T' ∷ [])
        then 0x0010
        else old)
    else if n == 4
    then method4 mem m old
    else if n == 5
    then method5 mem m old
    else if n == 6
    then method6 mem m old
    else if n == 7
    then (if str_cmp mem m (b'O' ∷ b'P' ∷ b'T' ∷ b'I' ∷ b'O' ∷ b'N' ∷ b'S' ∷ [])
        then 0x0200
        else old)
    else if n == 8
    then (if str_cmp mem m (b'P' ∷ b'R' ∷ b'O' ∷ b'P' ∷ b'F' ∷ b'I' ∷ b'N' ∷ b'D' ∷ [])
        then 0x0400
        else old)
    else if n == 9
    then (if str_cmp mem m (b'P' ∷ b'R' ∷ b'O' ∷ b'P' ∷ b'P' ∷ b'A' ∷ b'T' ∷ b'C' ∷ b'H' ∷ [])
        then 0x0800
        else old)
    else old
