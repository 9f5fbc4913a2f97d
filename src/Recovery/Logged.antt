-- ===== src/Recovery/Logged.antt =====
-- What each operation of src/store/KvStore.cpp adds to the log: the calls that a replay makes of it, as
-- the specification of the store tells them from its map.
use redis_cpp.Base.{
  ℕ, ◌≡◌, refl, sym, ◌∙◌, ap, inl, inr, true, Option, none, some, List, [], ◌∷◌, ◌++◌, Bytes, ℤ,
  pos, leb_ℤ, if◌then◌else◌, arith, Bool-cases, Option-cases, append-nil,
}
use redis_cpp.Aof.Writer.{
  AofWriter, maybe_fsync, write, write_resp, log_set, log_set_ex, log_del, log_expire, sync_file,
  set_text, set_ex_text, del_text, expire_text,
}
use redis_cpp.Aof.Replay.{Call, set_call, set_ex_call, del_call, expire_call}
use redis_cpp.Aof.RoundTrip.{log_of, logged_text}
use redis_cpp.Store.Shard.{Entry}
use redis_cpp.Store.State.{KvStore, bump, find, put, erase}
use redis_cpp.Store.Background.{on_ttl_expired}
use redis_cpp.Store.Ops.{
  is_live, logged, scheduled, set_internal, set, set_absolute, set_ex, evict, get, del, retarget,
  expire, expire_at, persist, deadline,
}
use redis_cpp.Store.Effects.{is_expired-not_live}
use redis_cpp.Store.Refine.{is_persistent}
use redis_cpp.Store.Spec.{
  Op, sets, sets_ex, sets_absolute, gets, dels, expires, expires_at, persists, ttls, lapses, run_op,
  Model,
}

-- A new deadline is logged for an entry that is live.
abbrev pub retarget_calls : Option Entry → Bytes → ℤ → ℤ → List Call
retarget_calls none k at_ms now = []
retarget_calls (some e) k at_ms now = if is_live e now then expire_call k at_ms ∷ [] else []

abbrev pub persist_calls : Option Entry → Bytes → ℤ → List Call
persist_calls none k now = []
persist_calls (some e) k now =
    if is_persistent e then [] else if is_live e now then set_call k e.value ∷ [] else []

unfoldable pub calls_of_op : Op → ℤ → ℤ → Model → List Call
calls_of_op (sets k v) now later f = set_call k v ∷ []
calls_of_op (sets_ex k v n) now later f =
    if leb_ℤ n (pos 0) then [] else set_ex_call k v (deadline now n) ∷ []
calls_of_op (sets_absolute k v t) now later f = set_ex_call k v t ∷ []
calls_of_op (gets k) now later f = []
calls_of_op (dels k) now later f = del_call k ∷ []
calls_of_op (expires k n) now later f =
    if leb_ℤ n (pos 0) then [] else retarget_calls (f k) k (deadline now n) later
calls_of_op (expires_at k t) now later f = retarget_calls (f k) k t now
calls_of_op (persists k) now later f = persist_calls (f k) k now
calls_of_op (ttls k) now later f = []
calls_of_op (lapses k) now later f = []

-- The store logs to an open writer, whose file holds `text` if no write has failed.
pub record HasFile (s : KvStore) (text : Bytes) : Type 0 where
  pub writer : AofWriter
  pub is_aof : s.aof ≡ some writer
  pub is_open : writer.is_open ≡ true
  pub file : writer.good ≡ true → writer.file ≡ text

-- A log_ function that adds `text` to the file of an open writer, unless the write fails or an
-- earlier one has.
record Adds (log : AofWriter → AofWriter) (text : Bytes) : Type 0 where
  is_open : (w : AofWriter) → w.is_open ≡ true → (log w).is_open ≡ true
  file :
      (w : AofWriter)
      → w.is_open ≡ true
      → (log w).good ≡ true
      → (w.good ≡ true) × ((log w).file ≡ w.file ++ text)

maybe_fsync-keeps :
    (w : AofWriter)
    → ((maybe_fsync w).is_open ≡ w.is_open)
      × ((maybe_fsync w).file ≡ w.file)
      × ((maybe_fsync w).good ≡ w.good)
unfolding maybe_fsync sync_file
maybe_fsync-keeps w = ground arith

write-open : (w : AofWriter) (text : Bytes) → (write w text).is_open ≡ w.is_open
unfolding write
write-open w text = ground arith

write-good :
    (w : AofWriter) (text : Bytes)
    → (write w text).good ≡ true
    → (w.good ≡ true) × ((write w text).file ≡ w.file ++ text)
unfolding write
write-good w text h = ground arith

write_resp-Adds : (text : Bytes) → Adds (λ w. write_resp w text) text
unfolding write_resp
write_resp-Adds text = record {
  is_open = λ w h. ground (arith, maybe_fsync-keeps (write w text), write-open w text);
  file = λ w h q. ground (arith, maybe_fsync-keeps (write w text), write-good w text);
}

logged-HasFile :
    (s : KvStore) (log : AofWriter → AofWriter) {text more : Bytes}
    → HasFile s text
    → Adds log more
    → HasFile (logged s log) (text ++ more)
unfolding logged
logged-HasFile s log {text} {more} h a = record {
  writer = log h.writer;
  is_aof = rw (h.is_aof, logged) refl;
  is_open = a.is_open h.writer h.is_open;
  file = λ q.
      let (good, added) = a.file h.writer h.is_open q in added ∙ ap (λ t. t ++ more) (h.file good);
}

-- A store with the same writer.
same_writer : (s t : KvStore) {text : Bytes} → HasFile s text → t.aof ≡ s.aof → HasFile t text
same_writer s t h e = record {
  writer = h.writer;
  is_aof = e ∙ h.is_aof;
  is_open = h.is_open;
  file = h.file;
}

put-aof : (s : KvStore) (k : Bytes) (e : Entry) → (put s k e).aof ≡ s.aof
unfolding put
put-aof s k e = refl

erase-aof : (s : KvStore) (k : Bytes) → (erase s k).aof ≡ s.aof
unfolding erase
erase-aof s k = refl

scheduled-aof : (s : KvStore) (k : Bytes) (t : ℤ) → (scheduled s k t).aof ≡ s.aof
unfolding scheduled
scheduled-aof s k t = ground arith

set_internal-aof : (s : KvStore) (k v : Bytes) (t : ℤ) → (set_internal s k v t).aof ≡ s.aof
unfolding set_internal
set_internal-aof s k v t = ground (
  arith,
  put-aof s k (record { value = v; expire_at_ms = t }),
  scheduled-aof (put s k (record { value = v; expire_at_ms = t })) k t,
)

evict-aof : (s : KvStore) (k : Bytes) (now : ℤ) → (evict s k now).aof ≡ s.aof
unfolding evict
evict-aof s k now = ground (arith, erase-aof s k)

on_ttl_expired-aof : (s : KvStore) (k : Bytes) (now : ℤ) → (on_ttl_expired s k now).aof ≡ s.aof
unfolding on_ttl_expired
on_ttl_expired-aof s k now = ground (arith, erase-aof s k)

-- What is behind the file, in calls.
no_call : (s : KvStore) {text : Bytes} → HasFile s text → HasFile s (text ++ log_of [])
unfolding log_of
no_call s {text} h = record {
  writer = h.writer;
  is_aof = h.is_aof;
  is_open = h.is_open;
  file = λ q. h.file q ∙ sym (append-nil text);
}

one_call :
    (s : KvStore) (c : Call) (text : Bytes)
    → HasFile s (text ++ logged_text c)
    → HasFile s (text ++ log_of (c ∷ []))
unfolding log_of
one_call s c text h = record {
  writer = h.writer;
  is_aof = h.is_aof;
  is_open = h.is_open;
  file = λ q. h.file q ∙ ap (λ t. text ++ t) (sym (append-nil (logged_text c)));
}

log_set-Adds : (k v : Bytes) → Adds (λ w. log_set w k v) (logged_text (set_call k v))
unfolding log_set logged_text
log_set-Adds k v = write_resp-Adds (set_text k v)

log_set_ex-Adds :
    (k v : Bytes) (t : ℤ) → Adds (λ w. log_set_ex w k v t) (logged_text (set_ex_call k v t))
unfolding log_set_ex logged_text
log_set_ex-Adds k v t = write_resp-Adds (set_ex_text k v t)

log_del-Adds : (k : Bytes) → Adds (λ w. log_del w k) (logged_text (del_call k))
unfolding log_del logged_text
log_del-Adds k = write_resp-Adds (del_text k)

log_expire-Adds : (k : Bytes) (t : ℤ) → Adds (λ w. log_expire w k t) (logged_text (expire_call k t))
unfolding log_expire logged_text
log_expire-Adds k t = write_resp-Adds (expire_text k t)

-- A change that is logged before or behind the write to the shards.
module _ (s : KvStore) {text : Bytes} (h : HasFile s text) where
  set_internal-logged :
      (n : ℕ) (log : AofWriter → AofWriter) (c : Call) (k v : Bytes) (t : ℤ)
      → Adds log (logged_text c)
      → HasFile
          (set_internal (logged (record s { stat_set = n }) log) k v t)
          (text ++ log_of (c ∷ []))
  set_internal-logged n log c k v t a = one_call _ c text (
      same_writer _ _ (logged-HasFile (record s { stat_set = n }) log (same_writer s _ h refl) a)
        (set_internal-aof _ k v t))

  deleted-HasFile :
      (n : ℕ) (k : Bytes)
      → HasFile
          (erase (logged (record s { stat_del = n }) (λ w. log_del w k)) k)
          (text ++ log_of (del_call k ∷ []))
  deleted-HasFile n k = one_call _ (del_call k) text (
      same_writer _ _
        (logged-HasFile (record s { stat_del = n }) _ (same_writer s _ h refl) (log_del-Adds k))
        (erase-aof _ k))

  logged-put :
      (k : Bytes) (e : Entry) (log : AofWriter → AofWriter) (c : Call)
      → Adds log (logged_text c)
      → HasFile (logged (put s k e) log) (text ++ log_of (c ∷ []))
  logged-put k e log c a =
      one_call _ c text (logged-HasFile (put s k e) log (same_writer s _ h (put-aof s k e)) a)

  erased-HasFile : (k : Bytes) → HasFile (erase s k) (text ++ log_of [])
  erased-HasFile k = no_call _ (same_writer s _ h (erase-aof s k))

  retarget-HasFile :
      (k : Bytes) (t now : ℤ)
      → HasFile (retarget s k t now).0 (text ++ log_of (retarget_calls (find s k) k t now))
  unfolding retarget
  retarget-HasFile k t now = elim (Option-cases (find s k)) [
    | inl e ↦ rw (e, retarget, retarget_calls) (no_call s h)
    | inr (x, e) ↦
        rw (e, retarget, retarget_calls)
          (elim (Bool-cases (is_live x now)) [
            | inl l ↦
                rw (is_expired-not_live x now, l)
                  (same_writer _ _ (logged-put k _ _ (expire_call k t) (log_expire-Adds k t))
                    (scheduled-aof _ k t))
            | inr l ↦ rw (is_expired-not_live x now, l) (erased-HasFile k)
          ])
  ]

  persist-HasFile :
      (k : Bytes) (now : ℤ)
      → HasFile (persist s k now).0 (text ++ log_of (persist_calls (find s k) k now))
  unfolding persist
  persist-HasFile k now = elim (Option-cases (find s k)) [
    | inl e ↦ rw (e, persist, persist_calls) (no_call s h)
    | inr (x, e) ↦
        rw (e, persist, persist_calls)
          (elim (Bool-cases (is_persistent x)) [
            | inl p ↦ rw p (no_call s h)
            | inr p ↦ (elim (Bool-cases (is_live x now)) [
              | inl l ↦
                  rw (p, is_expired-not_live x now, l)
                    (logged-put k _ _ (set_call k x.value) (log_set-Adds k x.value))
              | inr l ↦ rw (p, is_expired-not_live x now, l) (erased-HasFile k)
            ])
          ])
  ]

  get-HasFile : (k : Bytes) (now later : ℤ) → HasFile (get s k now later).0 (text ++ log_of [])
  unfolding get
  get-HasFile k now later =
      let counted = no_call _ (same_writer s (record s { stat_get = bump s.stat_get }) h refl) in
      elim (Option-cases (find s k)) [
        | inl e ↦ rw (e, get) counted
        | inr (x, e) ↦
            rw (e, get)
              (elim (Bool-cases (is_live x now)) [
                | inl l ↦ rw l counted
                | inr l ↦ rw l (same_writer _ _ counted (evict-aof _ k later))
              ])
      ]

  del-HasFile : (k : Bytes) → HasFile (del s k).0 (text ++ log_of (del_call k ∷ []))
  unfolding del
  del-HasFile k = elim (Option-cases (find s k)) [
    | inl e ↦ rw (e, del) (deleted-HasFile _ k)
    | inr (x, e) ↦ rw (e, del) (deleted-HasFile _ k)
  ]

  set_ex-HasFile :
      (k v : Bytes) (n now later : ℤ)
      → HasFile
          (set_ex s k v n now).0
          (text ++ log_of (calls_of_op (sets_ex k v n) now later (find s)))
  unfolding set_ex calls_of_op
  set_ex-HasFile k v n now later = elim (Bool-cases (leb_ℤ n (pos 0))) [
    | inl e ↦ rw e (no_call s h)
    | inr e ↦ rw e (set_internal-logged _ _ _ k v _ (log_set_ex-Adds k v (deadline now n)))
  ]

  expire-HasFile :
      (k : Bytes) (n now later : ℤ)
      → HasFile
          (expire s k n now later).0
          (text ++ log_of (calls_of_op (expires k n) now later (find s)))
  unfolding expire calls_of_op
  expire-HasFile k n now later = elim (Bool-cases (leb_ℤ n (pos 0))) [
    | inl e ↦ rw e (no_call s h)
    | inr e ↦ rw e (retarget-HasFile k (deadline now n) later)
  ]

-- Every operation adds to the file what the specification says, in one piece, if no write fails.
pub run_op-HasFile :
    (op : Op) (now later : ℤ) (s : KvStore) {text : Bytes}
    → HasFile s text
    → HasFile (run_op op now later s).0 (text ++ log_of (calls_of_op op now later (find s)))
unfolding run_op calls_of_op
run_op-HasFile (sets k v) now later s h =
    unfold set in set_internal-logged s h _ _ (set_call k v) k v _ (log_set-Adds k v)
run_op-HasFile (sets_ex k v n) now later s h = set_ex-HasFile s h k v n now later
run_op-HasFile (sets_absolute k v t) now later s h =
    unfold set_absolute in
    set_internal-logged s h _ _ (set_ex_call k v t) k v t (log_set_ex-Adds k v t)
run_op-HasFile (gets k) now later s h = get-HasFile s h k now later
run_op-HasFile (dels k) now later s h = del-HasFile s h k
run_op-HasFile (expires k n) now later s h = expire-HasFile s h k n now later
run_op-HasFile (expires_at k t) now later s h = unfold expire_at in retarget-HasFile s h k t now
run_op-HasFile (persists k) now later s h = persist-HasFile s h k now
run_op-HasFile (ttls k) now later s h = no_call s h
run_op-HasFile (lapses k) now later s h = no_call _ (same_writer s _ h (on_ttl_expired-aof s k now))
