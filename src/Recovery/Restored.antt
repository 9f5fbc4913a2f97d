-- ===== src/Recovery/Restored.antt =====
-- What the lambdas of src/main.cpp make of a record of the log, on the map of the specification, and that
-- the time of a replay does not matter to a key whose deadlines are ahead.
use redis_cpp.Base.{
  ℕ, suc, ◌≡◌, sym, ◌∙◌, inl, inr, true, false, none, some, List, [], ◌∷◌, Bytes, bytes_eq,
  bytes_eq_iff, bytes_eq_refl, ℤ, negsuc, leb_ℤ, if◌then◌else◌, arith, Bool-cases, Option-cases,
}
use redis_cpp.Aof.Replay.{Call, set_call, set_ex_call, del_call, expire_call}
use redis_cpp.Store.Shard.{Entry}
use redis_cpp.Store.Ops.{is_live}
use redis_cpp.Store.Spec.{Model, assign, entry, with_live, flag}
use redis_cpp.Commands.Command.{Times}

-- What a call of a lambda makes of the map.
abbrev pub restored : Times → Call → Model → Model
restored t (set_call k v) g = assign g k (entry v (negsuc 0))
restored t (set_ex_call k v d) g = if leb_ℤ d t.now then g else assign g k (entry v d)
restored t (del_call k) g = assign g k none
restored t (expire_call k d) g =
    if leb_ℤ d t.now
    then assign g k none
    else (with_live g k t.later (λ e. (assign g k (entry e.value d), flag true)) (flag false)).0

abbrev pub restored_all : List Call → (ℕ → Times) → ℕ → Model → Model
restored_all [] clock i g = g
restored_all (c ∷ cs) clock i g = restored_all cs clock (suc i) (restored (clock i) c g)

-- The deadlines that are logged under `j` are later than `restart`.
abbrev pub IsAhead : ℤ → Bytes → Call → Type 0
IsAhead restart j (set_call k v) = Unit {0}
IsAhead restart j (set_ex_call k v d) = bytes_eq k j ≡ true → leb_ℤ d restart ≡ false
IsAhead restart j (del_call k) = Unit {0}
IsAhead restart j (expire_call k d) = bytes_eq k j ≡ true → leb_ℤ d restart ≡ false

abbrev pub AllAhead : ℤ → Bytes → List Call → Type 0
AllAhead restart j [] = Unit {0}
AllAhead restart j (c ∷ cs) = IsAhead restart j c × AllAhead restart j cs

-- Two maps with the same entry under `j`, which no time up to `restart` ends.
pub record Follows (restart : ℤ) (j : Bytes) (f g : Model) : Type 0 where
  pub same : g j ≡ f j
  pub live : (e : Entry) → f j ≡ some e → is_live e restart ≡ true

pub is_live-earlier :
    (e : Entry) (now restart : ℤ)
    → is_live e restart ≡ true
    → leb_ℤ now restart ≡ true
    → is_live e now ≡ true
unfolding is_live
is_live-earlier e now restart h le = ground arith

pub is_live-later :
    (v : Bytes) (d restart : ℤ)
    → leb_ℤ d restart ≡ false
    → is_live (record { value = v; expire_at_ms = d }) restart ≡ true
unfolding is_live
is_live-later v d restart h = ground arith

abbrev key_of_call : Call → Bytes
key_of_call (set_call k v) = k
key_of_call (set_ex_call k v d) = k
key_of_call (del_call k) = k
key_of_call (expire_call k d) = k

restored-other :
    (t : Times) (c : Call) (g : Model) (j : Bytes)
    → bytes_eq (key_of_call c) j ≡ false
    → restored t c g j ≡ g j
restored-other t (set_call k v) g j q = ground arith
restored-other t (set_ex_call k v d) g j q = ground arith
restored-other t (del_call k) g j q = ground arith
restored-other t (expire_call k d) g j q = ground arith

-- A record under `j` that is replayed at two times, into two maps with the same entry there.
module _ (restart : ℤ) (j : Bytes) (t t' : Times) (f g : Model) (le : leb_ℤ t.now restart ≡ true)
    (le' : leb_ℤ t.later restart ≡ true) (ge : leb_ℤ t'.now restart ≡ true)
    (ge' : leb_ℤ t'.later restart ≡ true) (h : Follows restart j f g) where
  abbrev Both : Call → Type 0
  Both c = IsAhead restart j c → Follows restart j (restored t c f) (restored t' c g)

  ahead_of : (d now : ℤ) → leb_ℤ d restart ≡ false → leb_ℤ now restart ≡ true → leb_ℤ d now ≡ false
  ahead_of d now a b = ground arith

  set_call-Both : (v : Bytes) → Both (set_call j v)
  unfolding is_live
  set_call-Both v a = record {
    same = ground (arith, bytes_eq_refl j);
    live = λ e q. ground (arith, bytes_eq_refl j);
  }

  set_ex_call-Both : (v : Bytes) (d : ℤ) → Both (set_ex_call j v d)
  set_ex_call-Both v d a =
      let later = a (bytes_eq_refl j) in
      rw (ahead_of d t.now later le, ahead_of d t'.now later ge)
        (record {
          same = ground (arith, bytes_eq_refl j);
          live = λ e q. ground (arith, bytes_eq_refl j, is_live-later v d restart later);
        })

  expire_call-Both : (d : ℤ) → Both (expire_call j d)
  expire_call-Both d a =
      let later = a (bytes_eq_refl j) in
      rw (ahead_of d t.now later le, ahead_of d t'.now later ge)
        (elim (Option-cases (f j)) [
          | inl e ↦ rw (h.same, e, with_live) h
          | inr (x, e) ↦
              rw (h.same, e, with_live)
                (rw
                  (
                    is_live-earlier x t.later restart (h.live x e) le',
                    is_live-earlier x t'.later restart (h.live x e) ge',
                  )
                  (record {
                    same = ground (arith, bytes_eq_refl j);
                    live = λ y q.
                        ground (arith, bytes_eq_refl j, is_live-later x.value d restart later);
                  }))
        ])

  same_key_call : (c : Call) → key_of_call c ≡ j → Both c
  same_key_call (set_call k v) e = rw e (set_call-Both v)
  same_key_call (set_ex_call k v d) e = rw e (set_ex_call-Both v d)
  same_key_call (del_call k) e = rw e (λ a. record {
    same = ground (arith, bytes_eq_refl j);
    live = λ y q. ground (arith, bytes_eq_refl j);
  })
  same_key_call (expire_call k d) e = rw e (expire_call-Both d)

  pub restored-Follows : (c : Call) → Both c
  restored-Follows c a = elim (Bool-cases (bytes_eq (key_of_call c) j)) [
    | inl q ↦ same_key_call c ((bytes_eq_iff (key_of_call c) j).0 q) a
    | inr q ↦
        (let same_f = restored-other t c f j q in
          record {
            same = restored-other t' c g j q ∙ h.same ∙ sym same_f;
            live = λ e r. h.live e (sym same_f ∙ r);
          })
  ]
