-- ===== src/Proxy.antt =====
-- proxy.c, and http_send_to_client of http.c: the states of a connection to the upstream. What the system
-- and the parsers answer to the calls are the arguments of the handlers; a response is processed by
-- http_process_response_line, which ends by sending its header to the client or before that.
pub mod Order
mod Tests
use leactor.Prelude.{
  ℕ, suc, ℤ, pos, negsuc, Bool, true, false, ◌==◌, if◌then◌else◌, List, [], ◌∷◌, ◌≡◌,
}
use leactor.Parse.{lok, lerror, lagain}
use leactor.Buffers.Recv.{lclose}
use leactor.Http.Headers.{same_code}

-- L_PROXY_CONNECTED and the other values of `status`; some names stand for the same value.
abbrev pub proxy_connected : ℤ
proxy_connected = negsuc 0

abbrev pub proxy_connecting : ℤ
proxy_connecting = negsuc 1

abbrev pub connecting_accepted : ℤ
connecting_accepted = negsuc 2

abbrev pub proxy_waiting_response : ℤ
proxy_waiting_response = negsuc 3

abbrev pub http_writing_response_header : ℤ
http_writing_response_header = negsuc 3

abbrev pub proxy_writing : ℤ
proxy_writing = negsuc 4

abbrev pub proxy_error : ℤ
proxy_error = negsuc 5

abbrev pub proxy_closing : ℤ
proxy_closing = negsuc 7

abbrev pub http_wrote_response_header : ℤ
http_wrote_response_header = negsuc 8

-- The callback of the upstream's event: proxy_connect_writable or proxy_data_coming.
pub data Callback : Type 0 where
  connect_writable data_coming : Callback

-- What is written to the client: a header that send_chains has sent whole, or a call of send_buffers.
pub data Output : Type 0 where
  header body : Output

-- The two connections: their states, the callback of the upstream's event, how often resend_chains is posted, and
-- what is written to the client, the last first.
pub record Pair : Type 0 where
  pub client : ℤ
  pub proxy : ℤ
  pub callback : Callback
  pub posted : ℕ
  pub output : List Output

-- What socket and connect answer.
pub data Connect : Type 0 where
  no_socket in_progress connected refused : Connect

-- proxy_connect: the status of the upstream's connection and the returned value.
unfoldable pub proxy_connect : Connect → (status : ℤ) → ℤ × ℤ
proxy_connect no_socket status = (status, lerror)
proxy_connect in_progress status = (proxy_connecting, lagain)
proxy_connect connected status = (proxy_connected, lok)
proxy_connect refused status = (proxy_connecting, lerror)

-- What getsockopt answers: an error of its own, or the value of SO_ERROR.
pub data SocketError : Type 0 where
  unknown : SocketError
  known : ℕ → SocketError

-- proxy_connect_writable
unfoldable pub proxy_connect_writable : SocketError → Pair → Pair
proxy_connect_writable unknown s = s
proxy_connect_writable (known err) s = if err == 0 then record s { proxy = proxy_connected } else s

-- The switch of http_send_to_upstream on the code of send_chains.
abbrev by_code : (code : ℤ) → Pair → Pair
by_code code s =
    if same_code code lok
    then record s { client = connecting_accepted; proxy = proxy_waiting_response }
    else if same_code code lagain
    then record s { proxy = proxy_writing; posted = suc s.posted }
    else if same_code code lerror
    then record s { proxy = proxy_error }
    else if same_code code lclose
    then record s { proxy = proxy_closing }
    else record s { proxy = proxy_error }

-- http_send_to_upstream, for the code of send_chains.
unfoldable pub http_send_to_upstream : (code : ℤ) → Pair → Pair
http_send_to_upstream code s = record (by_code code s) { callback = data_coming }

-- http_send_to_client on the upstream's connection, for the code of send_chains.
abbrev pub http_send_to_client : (code : ℤ) → Pair → Pair
http_send_to_client code s =
    if same_code code lok
    then record s { proxy = http_wrote_response_header; output = header ∷ s.output }
    else if same_code code lagain
    then record s { proxy = http_writing_response_header }
    else if same_code code lclose
    then record s { proxy = proxy_closing }
    else record s { proxy = proxy_error }

-- How http_process_response_line ends: before the header is sent, or with the code of send_chains for it.
pub data Response : Type 0 where
  unparsed : Response
  sent : ℤ → Response

abbrev pub process_response_line : Response → Pair → Pair
process_response_line unparsed s = s
process_response_line (sent code) s = http_send_to_client code s

-- The states that proxy_data_coming sets for the code of lt_recv.
abbrev pub by_received : (received : ℤ) → Pair → Pair
by_received received s =
    if same_code received lagain
    then record s { proxy = proxy_waiting_response }
    else if same_code received lclose
    then record s { proxy = proxy_closing }
    else if same_code received lerror
    then record s { proxy = proxy_error }
    else s

abbrev pub by_waiting : Response → Pair → Pair
by_waiting response s =
    if same_code s.proxy proxy_waiting_response then process_response_line response s else s

abbrev pub by_wrote : Pair → Pair
by_wrote s =
    if same_code s.proxy http_wrote_response_header
    then record s { output = body ∷ s.output }
    else s

-- proxy_data_coming
unfoldable pub proxy_data_coming : (received : ℤ) → Response → Pair → Pair
proxy_data_coming received response s = by_wrote (by_waiting response (by_received received s))

-- One call of a handler: the upstream's event calls its callback, and the client's may send a request at any time.
pub data Step (s : Pair) : Pair → Type 0 where
  writable :
      (error : SocketError)
      → s.callback ≡ connect_writable
      → Step s (proxy_connect_writable error s)
  requested : (code : ℤ) → Step s (http_send_to_upstream code s)
  answered :
      (received : ℤ) (response : Response)
      → s.callback ≡ data_coming
      → Step s (proxy_data_coming received response s)

pub data Reach (s : Pair) : Pair → Type 0 where
  here : Reach s s
  next : {t u : Pair} → Reach s t → Step t u → Reach s u
