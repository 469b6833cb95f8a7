-- ===== src/Protocol/Tests.antt =====
-- Streams of tests/test_protocol.c and of a client's `run` command, and the laws at such streams.
use dpatch.Prelude.{true, ◌≡◌, refl, [], ◌∷◌, ◌++◌, none, some, arith, replicate}
use dpatch.Exec.{fault, ret, ◌>>=◌}
use dpatch.Memory.{Bytes}
use dpatch.Memory.Place.{int_bytes}
use dpatch.Protocol.{
  TokenStream, blank, tokenstream_alloc, tokenstream_reset, tokenstream_add_token,
  tokenstream_to_buf, buf_to_tokenstream, frame, protocol_read, parse_token_stream,
}
use dpatch.Protocol.Wire.{wires}
use dpatch.Protocol.Encode.{message, tokenstream_to_buf-message}
use dpatch.Protocol.Decode.{buf_to_tokenstream-wires}
use dpatch.Protocol.Parse.{parse_token_stream-values}
use dpatch.Protocol.RoundTrip.{received, frame-message, protocol_read-received}
use dpatch.Protocol.Deliver.{receive, receive-frame}

abbrev go : Bytes
go = b'g' ∷ b'o' ∷ []

abbrev env : Bytes
env = b'A' ∷ b'=' ∷ b'1' ∷ []

-- `dpatch run go -e A=1` as the client builds it: as many blank tokens in front as were counted.
abbrev run_go : TokenStream
run_go = record {
  type = 2;
  length = 4;
  tokens =
      blank
      ∷ blank
      ∷ record { type = 1; value = some go }
      ∷ record { type = 2; value = some env }
      ∷ blank
      ∷ [];
}

-- A reply of the server: one argument.
abbrev reply : TokenStream
reply = record { type = 7; length = 1; tokens = record { type = 1; value = some go } ∷ [] }

abbrev empty_stream : TokenStream
empty_stream = record { type = 0; length = 0; tokens = replicate 5 blank }

abbrev front : Bytes
front = 9 ∷ 9 ∷ 9 ∷ 9 ∷ []

built : tokenstream_alloc true 0 5 ≡ some empty_stream
unfolding tokenstream_alloc
built = refl

reset_and_add :
    (do fresh ← tokenstream_reset run_go; tokenstream_add_token fresh 1 (some go))
    ≡ ret (record {
      type = 2;
      length = 1;
      tokens = record { type = 1; value = some go } ∷ replicate 4 blank;
    })
unfolding tokenstream_reset tokenstream_add_token
reset_and_add = refl

tokenstream_to_buf-message_example :
    tokenstream_to_buf reply (front ++ replicate 14 5) 0 4
    ≡ ret (16, front ++ (message reply ++ (5 ∷ 5 ∷ [])))
tokenstream_to_buf-message_example =
    tokenstream_to_buf-message reply (omega arith) front (replicate 14 5) 0

-- A buffer one byte too short is overrun.
overrun : tokenstream_to_buf reply (front ++ replicate 11 5) 0 4 ≡ fault
overrun = tokenstream_to_buf-message reply (omega arith) front (replicate 11 5) 0

buf_to_tokenstream-wires_example :
    buf_to_tokenstream
      (front ++ (int_bytes 7 ++ (int_bytes 1 ++ (wires reply.tokens ++ []))))
      0
      4
      empty_stream
    ≡ ret (
        some (record {
          type = 7;
          length = 1;
          tokens = record { type = 1; value = some go } ∷ replicate 4 blank;
        }))
buf_to_tokenstream-wires_example =
    buf_to_tokenstream-wires empty_stream front [] 0 7 reply.tokens (omega arith) (omega arith)
      (omega arith) (omega arith) (omega arith)

parse_token_stream-values_example :
    parse_token_stream run_go (replicate 2 none) (replicate 2 none)
    ≡ ret (2, some go ∷ none ∷ [], some env ∷ none ∷ [])
parse_token_stream-values_example =
    parse_token_stream-values run_go (omega arith) (replicate 2 none) (replicate 2 none)

-- Arrays of as many slots as there are tokens are overrun by a stream of arguments alone.
args_overrun : parse_token_stream reply (replicate 1 none) (replicate 1 none) ≡ fault
args_overrun = parse_token_stream-values reply (omega arith) (replicate 1 none) (replicate 1 none)

frame-message_example :
    frame (front ++ replicate 12 0) 0 reply ≡ ret (some (20, int_bytes 20 ++ (message reply ++ [])))
frame-message_example = frame-message reply (omega arith) front (replicate 12 0) 0 refl

protocol_read-received_example :
    protocol_read (int_bytes 27 ++ (message run_go ++ (replicate 4 0 ++ []))) 0 empty_stream
    ≡ ret (some (record { type = 2; length = 4; tokens = received run_go ++ blank ∷ [] }))
protocol_read-received_example =
    protocol_read-received run_go (omega arith) empty_stream 27 0 [] (omega arith) (omega arith)
      (omega arith) (omega arith) (omega arith) (omega arith)

receive-frame_example :
    (frame (front ++ replicate 40 0) 0 run_go
      >>= receive empty_stream (replicate 4 none) (replicate 4 none))
    ≡ ret (some (2, some go ∷ none ∷ none ∷ none ∷ [], some env ∷ none ∷ none ∷ none ∷ []))
receive-frame_example =
    receive-frame run_go (omega arith) empty_stream front 40 0 (replicate 4 none) (replicate 4 none)
      refl (omega arith) (omega arith) (omega arith) (omega arith) (omega arith) (omega arith)
      (omega arith) (omega arith) (omega arith)
