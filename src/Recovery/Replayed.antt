-- ===== src/Recovery/Replayed.antt =====
-- A run of the store of src/store/KvStore.cpp beside the replay of what it logs: the records of its
-- operations, and the maps.
use mathlib.Core.Path.{fun_ext}
use redis_cpp.Base.{
  ℕ, suc, ◌≡◌, refl, sym, ◌∙◌, ap, inl, inr, Bool, true, none, some, List, [], ◌∷◌, ◌++◌, Bytes, ℤ,
  leb_ℤ, Bool-cases, append_assoc, append-nil,
}
use redis_cpp.Aof.Replay.{Call, set_call, set_ex_call, del_call, expire_call}
use redis_cpp.Aof.RoundTrip.{AllLoggable, log_of, logged_text, run_calls}
use redis_cpp.Store.Shard.{Entry}
use redis_cpp.Store.State.{KvStore, find}
use redis_cpp.Store.Sharding.{IsSound}
use redis_cpp.Store.Spec.{Op, sets, sets_absolute, dels, expires_at, run_op, spec_op, Model}
use redis_cpp.Store.Refine.{run_op-refines-spec_op}
use redis_cpp.Store.Run.{Timed, run_ops}
use redis_cpp.Commands.Command.{Times}
use redis_cpp.Recovery.Startup.{restore, fresh, restore_next}
use redis_cpp.Recovery.Lost.{find-fresh}
use redis_cpp.Recovery.Logged.{calls_of_op, HasFile, run_op-HasFile}
use redis_cpp.Recovery.Restored.{restored, restored_all, AllAhead, Follows}
use redis_cpp.Recovery.Follows.{step-Follows}

-- A store is sound, and its map is `f`.
pub record HasMap (s : KvStore) (f : Model) : Type 0 where
  pub sound : IsSound s
  pub is_map : find s ≡ f

run_op-HasMap :
    (op : Op) (now later : ℤ) (s : KvStore)
    → IsSound s
    → HasMap (run_op op now later s).0 (spec_op op now later (find s)).0
run_op-HasMap op now later s h =
    let a = run_op-refines-spec_op op now later s h in
    record { sound = a.sound; is_map = fun_ext a.found }

restore-HasMap :
    (t : Times) (c : Call) (s : KvStore)
    → IsSound s
    → HasMap (restore t c s) (restored t c (find s))
unfolding restore spec_op run_op
restore-HasMap t (set_call k v) s h = run_op-HasMap (sets k v) t.now t.later s h
restore-HasMap t (set_ex_call k v d) s h = elim (Bool-cases (leb_ℤ d t.now)) [
  | inl q ↦ rw q (record { sound = h; is_map = refl })
  | inr q ↦ rw q (run_op-HasMap (sets_absolute k v d) t.now t.later s h)
]
restore-HasMap t (del_call k) s h = run_op-HasMap (dels k) t.now t.later s h
restore-HasMap t (expire_call k d) s h = elim (Bool-cases (leb_ℤ d t.now)) [
  | inl q ↦ rw q (run_op-HasMap (dels k) t.now t.later s h)
  | inr q ↦ rw q (run_op-HasMap (expires_at k d) t.later t.later s h)
]

-- What the operations log, in order.
unfoldable pub calls_of_ops : List Timed → KvStore → List Call
calls_of_ops [] s = []
calls_of_ops (o ∷ os) s =
    calls_of_op o.op o.now o.later (find s) ++ calls_of_ops os (run_op o.op o.now o.later s).0

pub log_of-append : (cs ds : List Call) → log_of (cs ++ ds) ≡ log_of cs ++ log_of ds
unfolding log_of
log_of-append [] ds = refl
log_of-append (c ∷ cs) ds =
    ap (λ t. logged_text c ++ t) (log_of-append cs ds)
    ∙ sym (append_assoc (logged_text c) (log_of cs) (log_of ds))

-- The file of an open writer grows by the records of the calls, if no write fails.
pub run_ops-HasFile :
    (os : List Timed) (s : KvStore) (text : Bytes)
    → HasFile s text
    → HasFile (run_ops os s) (text ++ log_of (calls_of_ops os s))
unfolding run_ops calls_of_ops log_of
run_ops-HasFile [] s text h = rw (append-nil text) h
run_ops-HasFile (o ∷ os) s text h =
    let t = (run_op o.op o.now o.later s).0 in
    let cs = calls_of_op o.op o.now o.later (find s) in
    rw
      (
        log_of-append cs (calls_of_ops os t),
        ← append_assoc text (log_of cs) (log_of (calls_of_ops os t)),
      )
      (run_ops-HasFile os t (text ++ log_of cs) (run_op-HasFile o.op o.now o.later s h))

-- The number of the call behind `cs`.
abbrev pub behind : List Call → ℕ → ℕ
behind [] i = i
behind (c ∷ cs) i = behind cs (suc i)

pub restored_all-append :
    (cs ds : List Call) (clock : ℕ → Times) (i : ℕ) (g : Model)
    → restored_all (cs ++ ds) clock i g
      ≡ restored_all ds clock (behind cs i) (restored_all cs clock i g)
restored_all-append [] ds clock i g = refl
restored_all-append (c ∷ cs) ds clock i g =
    restored_all-append cs ds clock (suc i) (restored (clock i) c g)

AllAhead-append :
    (restart : ℤ) (j : Bytes) (cs ds : List Call)
    → AllAhead restart j (cs ++ ds)
    → AllAhead restart j cs × AllAhead restart j ds
AllAhead-append restart j [] ds h = (tt, h)
AllAhead-append restart j (c ∷ cs) ds h =
    let (a, b) = AllAhead-append restart j cs ds h.1 in ((h.0, a), b)

-- The operations ran at `restart` at the latest.
abbrev pub AllBefore : ℤ → List Timed → Type 0
AllBefore restart [] = Unit {0}
AllBefore restart (o ∷ os) =
    (leb_ℤ o.now restart ≡ true) × (leb_ℤ o.later restart ≡ true) × AllBefore restart os

pub AllLoggable-append :
    (can_reserve can_resize : ℕ → Bool) (cs ds : List Call)
    → AllLoggable can_reserve can_resize cs
    → AllLoggable can_reserve can_resize ds
    → AllLoggable can_reserve can_resize (cs ++ ds)
AllLoggable-append can_reserve can_resize [] ds h k = k
AllLoggable-append can_reserve can_resize (c ∷ cs) ds h k =
    (h.0, AllLoggable-append can_reserve can_resize cs ds h.1 k)

module _ (can_reserve can_resize : ℕ → Bool) (clock : ℕ → Times) where
  pub run_calls-HasMap :
      (cs : List Call) (i : ℕ) (u : KvStore)
      → IsSound u
      → HasMap
          (run_calls can_reserve can_resize (restore_next clock) cs (i, u)).1
          (restored_all cs clock i (find u))
  unfolding run_calls restore_next
  run_calls-HasMap [] i u h = record { sound = h; is_map = refl }
  run_calls-HasMap (c ∷ cs) i u h =
      let r = restore-HasMap (clock i) c u h in
      let s = run_calls-HasMap cs (suc i) (restore (clock i) c u) r.sound in
      record { sound = s.sound; is_map = s.is_map ∙ ap (restored_all cs clock (suc i)) r.is_map }

  module _ (restart : ℤ) (j : Bytes) (before : (i : ℕ) → leb_ℤ (clock i).now restart ≡ true)
      (before' : (i : ℕ) → leb_ℤ (clock i).later restart ≡ true) where
    pub ops-Follows :
        (os : List Timed) (s : KvStore) (i : ℕ) (g : Model)
        → IsSound s
        → AllBefore restart os
        → AllAhead restart j (calls_of_ops os s)
        → Follows restart j (find s) g
        → Follows restart j (find (run_ops os s)) (restored_all (calls_of_ops os s) clock i g)
    unfolding run_ops calls_of_ops
    ops-Follows [] s i g sound b a h = h
    ops-Follows (o ∷ os) s i g sound b a h =
        let cs = calls_of_op o.op o.now o.later (find s) in
        let r = run_op-HasMap o.op o.now o.later s sound in
        let (a', a'') =
          AllAhead-append restart j cs (calls_of_ops os (run_op o.op o.now o.later s).0) a in
        rw (restored_all-append cs (calls_of_ops os (run_op o.op o.now o.later s).0) clock i g) (
          ops-Follows os (run_op o.op o.now o.later s).0 (behind cs i) (restored_all cs clock i g)
            r.sound b.2 a''
            (rw (r.is_map) (
              step-Follows restart j o.now o.later clock i (find s) g b.0 b.1 (before i) (before' i)
                h o.op a')))

    pub fresh-Follows : Follows restart j (find fresh) (find fresh)
    fresh-Follows = record {
      same = refl;
      live = λ e q. absurd (nothing e (sym (find-fresh j) ∙ q));
    }
      where
        nothing : (e : Entry) → none ≡ some e → ⊥
        nothing e x = cc
