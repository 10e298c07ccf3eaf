-- ===== src/Catch/Connect.antt =====
-- `ws_connect`: the request, and the response up to the first bytes of the frames.
use poly_firmware_build.Base.{
  ℕ, not, none, some, List, [], ◌∷◌, ◌++◌, if◌then◌else◌, Bytes, Text, codes, occurs, partition,
  decimal,
}
use poly_firmware_build.Host.{Result, ok, raise, bind, os_error, runtime_error}
use poly_firmware_build.Catch.Socket.{Event, received, would_block, failed}

abbrev pub crlf : Bytes
crlf = 13 ∷ 10 ∷ []

abbrev pub blank_line : Bytes
blank_line = 13 ∷ 10 ∷ 13 ∷ 10 ∷ []

-- The request; `key` stands for the base64 of 16 random bytes.
unfoldable pub request : Text → Text → ℕ → Text → Bytes
request path host port key =
    codes "GET "
    ++ (path
        ++ (codes " HTTP/1.1"
            ++ (crlf
                ++ (codes "Host: "
                    ++ (host
                        ++ (codes ":"
                            ++ (decimal port
                                ++ (crlf
                                    ++ (codes "Upgrade: websocket"
                                        ++ (crlf
                                            ++ (codes "Connection: Upgrade"
                                                ++ (crlf
                                                    ++ (codes "Sec-WebSocket-Key: "
                                                        ++ (key
                                                            ++ (crlf
                                                            ++ (codes "Sec-WebSocket-Version: 13"
                                                            ++ blank_line))))))))))))))))

-- The loop that reads the headers, on a socket with a timeout: a call that gets nothing raises.
unfoldable pub read_response : Bytes → List Event → Result (Bytes × List Event)
read_response buf [] = if occurs blank_line buf then ok (buf, []) else raise os_error
read_response buf (received [] ∷ es) =
    if occurs blank_line buf
    then ok (buf, received [] ∷ es)
    else raise (runtime_error "ws handshake: connection closed mid-response" [])
read_response buf (received (c ∷ cs) ∷ es) =
    let more = read_response (buf ++ c ∷ cs) es in
    if occurs blank_line buf then ok (buf, received (c ∷ cs) ∷ es) else more
read_response buf (would_block ∷ es) =
    if occurs blank_line buf then ok (buf, would_block ∷ es) else raise os_error
read_response buf (failed ∷ es) =
    if occurs blank_line buf then ok (buf, failed ∷ es) else raise os_error

-- `buf.partition(sep)`, without the separator.
abbrev pub halves : Bytes → Bytes → Bytes × Bytes
halves sep buf = elim (partition sep buf) [ none ↦ (buf, []) | some p ↦ p ]

-- `head.split(b"\r\n")[0]`
abbrev pub first_line : Bytes → Bytes
first_line head = (halves crlf head).0

-- The response as `ws_connect` takes it: what is behind the headers, and the socket.
unfoldable pub accept_response : List Event → Result (Bytes × List Event)
accept_response es = bind (read_response [] es) λ (buf, es').
    let (head, leftover) = halves blank_line buf in
    if not (occurs (codes "101") (first_line head))
    then raise (runtime_error "ws handshake: {!r}" (first_line head ∷ []))
    else ok (leftover, es')

-- The bytes sent, and what comes of the response to them.
unfoldable pub ws_connect :
    Text → Text → ℕ → Text → List Event → Bytes × Result (Bytes × List Event)
ws_connect path host port key es = (request path host port key, accept_response es)
