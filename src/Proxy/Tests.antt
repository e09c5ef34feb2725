-- ===== src/Proxy/Tests.antt =====
-- A response that arrives after the upstream has connected and a request has been sent.
use leactor.Prelude.{pos, ◌≡◌, refl, [], ◌∷◌, arith}
use leactor.Parse.{lok, lagain}
use leactor.Proxy.{
  Pair, connect_writable, header, body, known, proxy_connect_writable, http_send_to_upstream,
  unparsed, sent, proxy_data_coming, writable, requested, answered, Reach, here, next,
  proxy_connecting, connecting_accepted,
}
use leactor.Proxy.Order.{IsOrdered, Reach-IsOrdered}

abbrev started : Pair
started = record {
  client = connecting_accepted;
  proxy = proxy_connecting;
  callback = connect_writable;
  posted = 0;
  output = [];
}

abbrev connected : Pair
connected = proxy_connect_writable (known 0) started

abbrev waiting : Pair
waiting = http_send_to_upstream lok connected

abbrev answered_once : Pair
answered_once = proxy_data_coming lagain (sent lok) waiting

abbrev answered_twice : Pair
answered_twice = proxy_data_coming (pos 700) unparsed answered_once

run : Reach started answered_twice
unfolding proxy_connect_writable http_send_to_upstream proxy_data_coming
run =
    next
      (next (next (next here (writable (known 0) refl)) (requested lok))
        (answered lagain (sent lok) refl))
      (answered (pos 700) unparsed refl)

outputs : answered_twice.output ≡ body ∷ body ∷ header ∷ []
unfolding proxy_connect_writable http_send_to_upstream proxy_data_coming
outputs = refl

Reach-IsOrdered_example : IsOrdered answered_twice.output
Reach-IsOrdered_example =
    Reach-IsOrdered {s = started} {t = answered_twice} refl (λ e. ground arith) run
