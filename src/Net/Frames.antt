-- ===== src/Net/Frames.antt =====
-- `EpollReactor::extract_frames` of src/net/EpollReactor.cpp: requests are cut off the front of a
-- connection's receive buffer.
use redis_cpp.Base.{
  ℕ, zero, suc, ◌+◌, Bool, true, false, List, [], Bytes, leb, if◌then◌else◌, length, drop,
}
use redis_cpp.Resp.Parser.{complete, incomplete, error, Outcome, returns, throws, parse}

-- How the loop ends: the bytes that are consumed, the requests, and whether the connection is kept.
pub record LoopEnd : Type 0 where
  pub consumed : ℕ
  pub cmds : List (List Bytes)
  pub alive : Bool

-- What extract_frames leaves: the buffer, the requests, and its result. Where the result is false
-- the caller's connection is closed (`handle_close`), with its buffer.
pub record Extracted : Type 0 where
  pub recv_buf : Bytes
  pub cmds : List (List Bytes)
  pub alive : Bool

-- The buffer is compacted if the connection is kept; `drop 0` is the buffer itself.
abbrev pub compact : Bytes → LoopEnd → Extracted
compact buf e = record {
  recv_buf = if e.alive then drop e.consumed buf else buf;
  cmds = e.cmds;
  alive = e.alive;
}

module _ (can_reserve : ℕ → Bool) where
  -- The loop. Each round but the last consumes a byte, so the buffer's length is fuel enough.
  unfoldable pub frames_loop : ℕ → Bytes → ℕ → List (List Bytes) → Outcome LoopEnd
  frames_loop zero buf consumed out =
      returns (record { consumed = consumed; cmds = out; alive = true })
  frames_loop (suc fuel) buf consumed out =
      if leb (length buf) consumed
      then returns (record { consumed = consumed; cmds = out; alive = true })
      else (elim (parse can_reserve (drop consumed buf) out 0) [
        | throws ↦ throws
        | returns r ↦ (elim r.result [
          | complete ↦ frames_loop fuel buf (consumed + r.consumed) r.cmds
          | incomplete ↦ returns (record { consumed = consumed; cmds = r.cmds; alive = true })
          | error ↦ returns (record { consumed = consumed; cmds = r.cmds; alive = false })
        ])
      ])

  unfoldable pub extract_frames : Bytes → Outcome Extracted
  unfolding frames_loop
  extract_frames buf = elim (frames_loop (length buf) buf 0 []) [
    | throws ↦ throws
    | returns e ↦ returns (compact buf e)
  ]
