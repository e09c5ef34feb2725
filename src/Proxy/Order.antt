-- ===== src/Proxy/Order.antt =====
-- The order in which a response reaches the client.
use leactor.Prelude.{
  ℕ, ℤ, pos, negsuc, true, ◌≡◌, ◌≢◌, ap, inl, inr, Bool-cases, List, [], ◌∷◌, arith,
}
use leactor.Http.Headers.{same_code}
use leactor.Proxy.{
  Output, header, body, Pair, SocketError, unknown, known, proxy_connect_writable, by_code,
  http_send_to_upstream, http_send_to_client, Response, unparsed, sent, by_received, by_waiting,
  by_wrote, proxy_data_coming, Step, writable, requested, answered, Reach, here, next,
  http_wrote_response_header, proxy_waiting_response,
}

abbrev HasHeader : List Output → Type 0
HasHeader [] = ⊥
HasHeader (header ∷ outputs) = Unit
HasHeader (body ∷ outputs) = HasHeader outputs

-- Every body has been preceded by a header.
abbrev pub IsOrdered : List Output → Type 0
IsOrdered [] = Unit
IsOrdered (header ∷ outputs) = IsOrdered outputs
IsOrdered (body ∷ outputs) = HasHeader outputs × IsOrdered outputs

same_code-exact : (a b : ℤ) → same_code a b ≡ true → a ≡ b
same_code-exact (pos m) (pos n) e = ap (λ (k : ℕ). pos k) (ground arith)
same_code-exact (pos m) (negsuc n) e = absurd (ground arith)
same_code-exact (negsuc m) (pos n) e = absurd (ground arith)
same_code-exact (negsuc m) (negsuc n) e = ap (λ (k : ℕ). negsuc k) (ground arith)

-- The state after the header is one in which a header has been written.
abbrev IsSafe : Pair → Type 0
IsSafe s = IsOrdered s.output × (s.proxy ≡ http_wrote_response_header → HasHeader s.output)

-- Another state than the one after the header keeps the invariant.
settled :
    (s : Pair) (status : ℤ)
    → status ≢ http_wrote_response_header
    → IsSafe s
    → IsSafe (record s { proxy = status })
settled s status ne h = (h.0, λ e. absurd (ne e))

by_code-IsSafe : (code : ℤ) (s : Pair) → IsSafe s → IsSafe (by_code code s)
by_code-IsSafe code s h = ground arith

http_send_to_client-IsSafe : (code : ℤ) (s : Pair) → IsSafe s → IsSafe (http_send_to_client code s)
http_send_to_client-IsSafe code s h = ground arith

by_received-IsSafe : (received : ℤ) (s : Pair) → IsSafe s → IsSafe (by_received received s)
by_received-IsSafe received s h = ground arith

by_waiting-IsSafe : (response : Response) (s : Pair) → IsSafe s → IsSafe (by_waiting response s)
by_waiting-IsSafe unparsed s h = ground arith
by_waiting-IsSafe (sent code) s h = elim (Bool-cases (same_code s.proxy proxy_waiting_response)) [
  | inl waits ↦ rw waits (http_send_to_client-IsSafe code s h)
  | inr other ↦ rw other h
]

by_wrote-IsSafe : (s : Pair) → IsSafe s → IsSafe (by_wrote s)
by_wrote-IsSafe s h = elim (Bool-cases (same_code s.proxy http_wrote_response_header)) [
  | inl wrote ↦
      rw wrote ((h.1 (same_code-exact s.proxy http_wrote_response_header wrote), h.0), h.1)
  | inr other ↦ rw other h
]

writable-IsSafe :
    (error : SocketError) (s : Pair) → IsSafe s → IsSafe (proxy_connect_writable error s)
unfolding proxy_connect_writable
writable-IsSafe unknown s h = h
writable-IsSafe (known err) s h = ground arith

Step-IsSafe : {s t : Pair} → Step s t → IsSafe s → IsSafe t
unfolding http_send_to_upstream proxy_data_coming
Step-IsSafe {s} (writable error _) h = writable-IsSafe error s h
Step-IsSafe {s} (requested code) h = by_code-IsSafe code s h
Step-IsSafe {s} (answered received response _) h =
    by_wrote-IsSafe (by_waiting response (by_received received s))
      (by_waiting-IsSafe response (by_received received s) (by_received-IsSafe received s h))

Reach-IsSafe : {s t : Pair} → Reach s t → IsSafe s → IsSafe t
Reach-IsSafe here h = h
Reach-IsSafe (next r step) h = Step-IsSafe step (Reach-IsSafe r h)

-- From a pair to whose client nothing is written yet, and whose upstream has not been through a response, however
-- the upstream connects, whatever requests are sent and whatever comes from it, in any order: no
-- buffers are sent to the client before a response header has been sent to it whole.
pub Reach-IsOrdered :
    {s t : Pair}
    → s.output ≡ []
    → s.proxy ≢ http_wrote_response_header
    → Reach s t
    → IsOrdered t.output
Reach-IsOrdered {s} none ne r = (Reach-IsSafe r (rw none tt, λ e. absurd (ne e))).0
