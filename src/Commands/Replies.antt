-- ===== src/Commands/Replies.antt =====
-- What a client sees of the commands, from the message to the reply.
use redis_cpp.Base.{
  ℕ, ◌+◌, ◌≡◌, refl, ap, ◌∙◌, Bool, true, false, ◌||◌, Option, none, some, List, [], ◌∷◌, map,
  Bytes, bytes_eq, bytes_eq_refl, codes, toupper, ltb, pos, not, ◌&&◌, Option-cases, negsuc,
  if◌then◌else◌, length, arith, Bool-cases, inl, inr,
}
use redis_cpp.Resp.Encode.{simple_string, bulk_string, integer}
use redis_cpp.Store.Shard.{Entry}
use redis_cpp.Store.State.{KvStore, find}
use redis_cpp.Store.Sharding.{IsSound}
use redis_cpp.Store.Ops.{set, get, del, is_live}
use redis_cpp.Store.Spec.{entry}
use redis_cpp.Store.Expiry.{get_found}
use redis_cpp.Store.After.{find-set, find-del, del-IsSound}
use redis_cpp.Commands.Command.{
  Command, get_command, set_command, del_command, expire_command, ttl_command, persist_command,
  ping_command, info_command, keys_command, dbsize_command, command_cmd, bulk_or_nil, name,
  min_args, max_args, Times, execute, execute_set, execute_del, del_keys,
}
use redis_cpp.Commands.Dispatch.{
  put_command, register_command, find_command, registry, checked, dispatch, on_message,
}

find_command-registry : (c : Command) → find_command (name c) registry ≡ some c
unfolding find_command registry register_command put_command name bytes_eq
find_command-registry get_command = refl
find_command-registry set_command = refl
find_command-registry del_command = refl
find_command-registry expire_command = refl
find_command-registry ttl_command = refl
find_command-registry persist_command = refl
find_command-registry ping_command = refl
find_command-registry info_command = refl
find_command-registry keys_command = refl
find_command-registry dbsize_command = refl
find_command-registry command_cmd = refl

dispatch_found :
    (c : Command) (n : Bytes) (args : List Bytes) (t : Times) (s : KvStore)
    → find_command n registry ≡ some c
    → dispatch registry (n ∷ args) t s ≡ checked c (n ∷ args) t s
unfolding dispatch
dispatch_found c n args t s h = rw (h, dispatch) refl

on_message-command :
    (c : Command) (n : Bytes) (args : List Bytes) (t : Times) (s : KvStore)
    → map toupper n ≡ name c
    → on_message registry (n ∷ args) t s ≡ checked c (name c ∷ args) t s
unfolding on_message
on_message-command c n args t s h =
    ap (λ m. dispatch registry (m ∷ args) t s) h
    ∙ dispatch_found c (name c) args t s (find_command-registry c)

message_set :
    (n k v : Bytes) (t : Times) (s : KvStore)
    → map toupper n ≡ codes "SET"
    → on_message registry (n ∷ k ∷ v ∷ []) t s ≡ ((set s k v).0, simple_string (codes "OK"))
unfolding name checked min_args max_args execute execute_set set
message_set n k v t s h = on_message-command set_command n (k ∷ v ∷ []) t s h

message_get :
    (n k v : Bytes) (t : Times) (s : KvStore)
    → map toupper n ≡ codes "GET"
    → (get s k t.now t.later).1 ≡ some v
    → (on_message registry (n ∷ k ∷ []) t s).1 ≡ bulk_string v
unfolding name checked min_args max_args execute bulk_or_nil
message_get n k v t s h there =
    ap (λ r. r.1) (on_message-command get_command n (k ∷ []) t s h)
    ∙ answered (get s k t.now t.later) there
  where
    answered : (r : KvStore × Option Bytes) → r.1 ≡ some v → (bulk_or_nil r).1 ≡ bulk_string v
    answered (s, none) e = absurd cc
    answered (s, some w) e = ap bulk_string (cc)

-- On a store whose shards are all there, a message SET with a key and a value, its name in
-- letters of either case, is answered OK, and a message GET of that key right behind it is
-- answered with the value, at whatever times.
pub message_get-after_set :
    (n m k v : Bytes) (t t' : Times) (s : KvStore)
    → IsSound s
    → map toupper n ≡ codes "SET"
    → map toupper m ≡ codes "GET"
    → ((on_message registry (n ∷ k ∷ v ∷ []) t s).1 ≡ simple_string (codes "OK"))
      × ((on_message registry (m ∷ k ∷ []) t' (on_message registry (n ∷ k ∷ v ∷ []) t s).0).1
          ≡ bulk_string v)
message_get-after_set n m k v t t' s sound hn hm =
    let stored = message_set n k v t s hn in
    (
      ap (λ r. r.1) stored,
      ap (λ r. (on_message registry (m ∷ k ∷ []) t' r.0).1) stored
          ∙ message_get m k v t' (set s k v).0 hm (
              get_found _ k (record { value = v; expire_at_ms = negsuc 0 }) t'.now t'.later there
              ∙ (unfold is_live in refl)),
    )
  where
    there : find (set s k v).0 k ≡ entry v (negsuc 0)
    there = find-set s k sound v k ∙ rw (bytes_eq_refl k) refl

-- Whether a key is among others.
unfoldable pub among : Bytes → List Bytes → Bool
among j [] = false
among j (k ∷ ks) = bytes_eq k j || among j ks

del_keys-find :
    (ks : List Bytes) (deleted : ℕ) (s : KvStore) (j : Bytes)
    → IsSound s
    → find (del_keys ks deleted s).0 j ≡ (if among j ks then none else find s j)
unfolding del_keys among
del_keys-find [] deleted s j h = refl
del_keys-find (k ∷ ks) deleted s j h =
    del_keys-find ks (if (del s k).1 then deleted + 1 else deleted) (del s k).0 j
      (del-IsSound s k h)
    ∙ rw (find-del s k h j) (elim (Bool-cases (bytes_eq k j)) [
      | inl e ↦ rw e (elim (Bool-cases (among j ks)) [ inl m ↦ rw m refl | inr m ↦ rw m refl ])
      | inr e ↦ rw e refl
    ])

checked_del :
    (n k : Bytes) (ks : List Bytes) (t : Times) (s : KvStore)
    → checked del_command (n ∷ k ∷ ks) t s
      ≡ ((del_keys (k ∷ ks) 0 s).0, integer (pos (del_keys (k ∷ ks) 0 s).1))
unfolding checked min_args max_args execute execute_del
checked_del n k ks t s =
    let enough : ltb (length (n ∷ k ∷ ks)) 2 ≡ false = ground arith in rw enough refl

abbrev is_there : Option Entry → Bool
is_there none = false
is_there (some _) = true

-- How many keys of a list have an entry in `f`, each counted once; those in `seen` are not counted.
unfoldable pub there_once : (Bytes → Option Entry) → List Bytes → List Bytes → ℕ
unfolding among
there_once f seen [] = 0
there_once f seen (k ∷ ks) =
    (if not (among k seen) && is_there (f k) then 1 else 0) + there_once f (k ∷ seen) ks

del_found : (s : KvStore) (k : Bytes) → (del s k).1 ≡ is_there (find s k)
unfolding del
del_found s k = elim (Option-cases (find s k)) [
  | inl e ↦ rw (e, del) refl
  | inr (x, e) ↦ rw (e, del) refl
]

del_keys-there_once :
    (ks seen : List Bytes) (deleted : ℕ) (s : KvStore) (f : Bytes → Option Entry)
    → IsSound s
    → ((j : Bytes) → find s j ≡ (if among j seen then none else f j))
    → (del_keys ks deleted s).1 ≡ deleted + there_once f seen ks
unfolding del_keys there_once among
del_keys-there_once [] seen deleted s f h g = omega arith
del_keys-there_once (k ∷ ks) seen deleted s f h g =
    del_keys-there_once ks (k ∷ seen) (if (del s k).1 then deleted + 1 else deleted) (del s k).0 f
      (del-IsSound s k h) gone
    ∙ counted
  where
    gone : (j : Bytes) → find (del s k).0 j ≡ (if bytes_eq k j || among j seen then none else f j)
    gone j =
        find-del s k h j
        ∙ elim (Bool-cases (bytes_eq k j)) [ inl e ↦ rw e refl | inr e ↦ rw e (g j) ]

    found : (del s k).1 ≡ not (among k seen) && is_there (f k)
    found =
        del_found s k
        ∙ ap is_there (g k)
        ∙ elim (Bool-cases (among k seen)) [ inl e ↦ rw e refl | inr e ↦ rw e refl ]

    counted :
        (if (del s k).1 then deleted + 1 else deleted) + there_once f (k ∷ seen) ks
        ≡ deleted
          + ((if not (among k seen) && is_there (f k) then 1 else 0) + there_once f (k ∷ seen) ks)
    counted = rw (← found) (ground arith)

-- On a store whose shards are all there, behind a message DEL with at least one key, its name in
-- letters of either case, its keys have no entry and every other key has the entry it had, and
-- the answer is how many of its keys had an entry, live or expired, each counted once.
pub message_del :
    (n k j : Bytes) (ks : List Bytes) (t : Times) (s : KvStore)
    → IsSound s
    → map toupper n ≡ codes "DEL"
    → (find (on_message registry (n ∷ k ∷ ks) t s).0 j
        ≡ (if among j (k ∷ ks) then none else find s j))
      × ((on_message registry (n ∷ k ∷ ks) t s).1 ≡ integer (pos (there_once (find s) [] (k ∷ ks))))
unfolding name
message_del n k j ks t s h e =
    let run =
      on_message-command del_command n (k ∷ ks) t s e ∙ checked_del (name del_command) k ks t s in
    (
      ap (λ r. find r.0 j) run ∙ del_keys-find (k ∷ ks) 0 s j h,
      ap (λ r. r.1) run
          ∙ ap (λ m. integer (pos m))
              (del_keys-there_once (k ∷ ks) [] 0 s (find s) h (λ i. unfold among in refl)
                ∙ omega arith),
    )
