-- ===== src/Catch/Socket.antt =====
-- The socket as what its calls of `recv` return, one after the other.
use poly_firmware_build.Base.{
  ℕ, Bool, true, false, List, [], ◌∷◌, ◌++◌, leb, if◌then◌else◌, Bytes, length,
}
use poly_firmware_build.Host.{os_error, Result, ok, raise}

-- One call: some bytes, none of them at the end of the stream, `BlockingIOError` or a timeout, or
-- another exception. Behind the last event nothing more comes.
pub data Event : Type 0 where
  received : Bytes → Event
  would_block failed : Event

-- The bytes still to come.
abbrev pub pending : List Event → Bytes
pending [] = []
pending (received b ∷ es) = b ++ pending es
pending (would_block ∷ es) = pending es
pending (failed ∷ es) = pending es

-- No call raises another exception.
abbrev pub IsCalm : List Event → Type 0
IsCalm [] = Unit
IsCalm (received b ∷ es) = IsCalm es
IsCalm (would_block ∷ es) = IsCalm es
IsCalm (failed ∷ es) = ⊥

-- `need`: receives until the buffer has `n` bytes, and says whether it has.
unfoldable pub need : ℕ → Bytes → List Event → Result (Bool × Bytes × List Event)
need n buf [] = ok (leb n (length buf), buf, [])
need n buf (received [] ∷ es) =
    if leb n (length buf) then ok (true, buf, received [] ∷ es) else ok (false, buf, es)
need n buf (received (c ∷ cs) ∷ es) =
    let more = need n (buf ++ c ∷ cs) es in
    if leb n (length buf) then ok (true, buf, received (c ∷ cs) ∷ es) else more
need n buf (would_block ∷ es) =
    if leb n (length buf) then ok (true, buf, would_block ∷ es) else ok (false, buf, es)
need n buf (failed ∷ es) =
    if leb n (length buf) then ok (true, buf, failed ∷ es) else raise os_error

-- The call at the head of the receiving loop, and whether the loop goes on.
unfoldable pub poll : Bytes → List Event → Result (Bool × Bytes × List Event)
poll [] [] = ok (false, [], [])
poll (b ∷ bs) [] = ok (true, b ∷ bs, [])
poll [] (received [] ∷ es) = ok (false, [], es)
poll (b ∷ bs) (received [] ∷ es) = ok (true, b ∷ bs, es)
poll buf (received (c ∷ cs) ∷ es) = ok (true, buf ++ c ∷ cs, es)
poll [] (would_block ∷ es) = ok (false, [], es)
poll (b ∷ bs) (would_block ∷ es) = ok (true, b ∷ bs, es)
poll buf (failed ∷ es) = raise os_error
