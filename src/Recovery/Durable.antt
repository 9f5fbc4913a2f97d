-- ===== src/Recovery/Durable.antt =====
-- A restart of src/main.cpp brings back what the store of the run before it held, for every key whose
-- logged deadlines are still ahead.
use mathlib.Core.Path.{fun_ext}
use redis_cpp.Base.{
  ℕ, suc, ◌≡◌, refl, sym, subst, ◌∙◌, ap, Bool, true, Option, none, some, List, [], ◌∷◌, ◌++◌,
  Bytes, ℤ, leb_ℤ,
}
use redis_cpp.Resp.Parser.{returns}
use redis_cpp.Aof.Writer.{AofWriter}
use redis_cpp.Aof.Replay.{Call}
use redis_cpp.Aof.RoundTrip.{AllLoggable, log_of, run_calls}
use redis_cpp.Store.State.{KvStore, set_aof, find}
use redis_cpp.Store.Spec.{Model}
use redis_cpp.Store.Run.{Timed, run_ops}
use redis_cpp.Commands.Command.{Times}
use redis_cpp.Recovery.Startup.{fresh, restore_next, start}
use redis_cpp.Recovery.Lost.{fresh-IsSound, find-set_aof, start-log_of}
use redis_cpp.Recovery.Restored.{restored, restored_all, AllAhead, Follows, restored-Follows}
use redis_cpp.Recovery.Replayed.{
  HasMap, calls_of_ops, log_of-append, run_ops-HasFile, behind, restored_all-append, AllBefore,
  AllLoggable-append, run_calls-HasMap, ops-Follows, fresh-Follows,
}

-- The store that a start makes of the log `log_of cs`, with the writer `w`.
abbrev pub started :
    (can_reserve can_resize : ℕ → Bool) (clock : ℕ → Times) → List Call → AofWriter → KvStore
started can_reserve can_resize clock cs w =
    set_aof (run_calls can_reserve can_resize (restore_next clock) cs (0, fresh)).1 (some w)

started-HasMap :
    (can_reserve can_resize : ℕ → Bool) (clock : ℕ → Times) (cs : List Call) (w : AofWriter)
    → HasMap (started can_reserve can_resize clock cs w) (restored_all cs clock 0 (find fresh))
unfolding set_aof
started-HasMap can_reserve can_resize clock cs w =
    let m = run_calls-HasMap can_reserve can_resize clock cs 0 fresh fresh-IsSound in
    record {
      sound = record { all_there = m.sound.all_there; some_shard = m.sound.some_shard };
      is_map = fun_ext (find-set_aof _ (some w)) ∙ m.is_map;
    }

-- No write of a file has failed.
abbrev pub NoneFailed : Option AofWriter → Type 0
NoneFailed none = Unit {0}
NoneFailed (some w) = w.good ≡ true

-- Two replays of one log at any times up to `restart`.
module _ (restart : ℤ) (j : Bytes) (clock clock' : ℕ → Times)
    (le : (i : ℕ) → leb_ℤ (clock i).now restart ≡ true)
    (le' : (i : ℕ) → leb_ℤ (clock i).later restart ≡ true)
    (ge : (i : ℕ) → leb_ℤ (clock' i).now restart ≡ true)
    (ge' : (i : ℕ) → leb_ℤ (clock' i).later restart ≡ true) where
  restored_all-Follows :
      (cs : List Call) (i : ℕ) (f g : Model)
      → AllAhead restart j cs
      → Follows restart j f g
      → Follows restart j (restored_all cs clock i f) (restored_all cs clock' i g)
  restored_all-Follows [] i f g a h = h
  restored_all-Follows (c ∷ cs) i f g a h =
      restored_all-Follows cs (suc i) (restored (clock i) c f) (restored (clock' i) c g) a.1
        (restored-Follows restart j (clock i) (clock' i) f g (le i) (le' i) (ge i) (ge' i) h c a.0)

  module _ (can_reserve can_resize : ℕ → Bool) where
    -- A start with any open writer on the log of any calls, a run of any operations, and a second
    -- start on what that writer then holds, with any writer of its own: under the conditions of
    -- boot-run_ops, the second store has under `j` what the first one had at the end of the run.
    pub start-run_ops :
        (w : AofWriter) (cs : List Call) (os : List Timed) (aof : AofWriter → Option AofWriter)
        → w.is_open ≡ true
        → w.file ≡ log_of cs
        → AllBefore restart os
        → AllLoggable can_reserve can_resize cs
        → AllLoggable can_reserve can_resize
            (calls_of_ops os (started can_reserve can_resize clock cs w))
        → NoneFailed (run_ops os (started can_reserve can_resize clock cs w)).aof
        → AllAhead restart j cs
        → AllAhead restart j (calls_of_ops os (started can_reserve can_resize clock cs w))
        → (start can_reserve can_resize clock (some w.file) (some w)
            ≡ returns (started can_reserve can_resize clock cs w))
          × (old : AofWriter) × ((run_ops os (started can_reserve can_resize clock cs w)).aof
              ≡ some old)
          × (new : KvStore) × (start can_reserve can_resize clock' (some old.file) (aof old)
              ≡ returns new)
          × (find new j ≡ find (run_ops os (started can_reserve can_resize clock cs w)) j)
    unfolding set_aof
    start-run_ops w cs os aof opened is_log b l l' good a a' =
        let s = started can_reserve can_resize clock cs w in
        let ds = calls_of_ops os s in
        let f =
          run_ops-HasFile os s (log_of cs)
            (record { writer = w; is_aof = refl; is_open = opened; file = λ q. is_log }) in
        let u = (run_calls can_reserve can_resize (restore_next clock') (cs ++ ds) (0, fresh)).1 in
        let m = run_calls-HasMap can_reserve can_resize clock' (cs ++ ds) 0 fresh fresh-IsSound in
        let n = started-HasMap can_reserve can_resize clock cs w in
        let first =
          subst (λ g. Follows restart j g (restored_all cs clock' 0 (find fresh))) (sym n.is_map)
            (restored_all-Follows cs 0 (find fresh) (find fresh) a
              (fresh-Follows can_reserve can_resize clock restart j le le')) in
        let same =
          ops-Follows can_reserve can_resize clock' restart j ge ge' os s (behind cs 0)
            (restored_all cs clock' 0 (find fresh)) n.sound b a' first in
        (
          ap (λ t. start can_reserve can_resize clock (some t) (some w)) is_log
              ∙ start-log_of can_reserve can_resize clock (some w) cs l,
          f.writer,
          f.is_aof,
          set_aof u (aof f.writer),
          ap (λ t. start can_reserve can_resize clock' (some t) (aof f.writer))
                (f.file (subst NoneFailed f.is_aof good) ∙ sym (log_of-append cs ds))
              ∙ start-log_of can_reserve can_resize clock' (aof f.writer) (cs ++ ds)
                  (AllLoggable-append can_reserve can_resize cs ds l l'),
          find-set_aof u (aof f.writer) j
              ∙ ap (λ (g : Model). g j) m.is_map
              ∙ ap (λ (g : Model). g j) (restored_all-append cs ds clock' 0 (find fresh))
              ∙ same.same,
        )
