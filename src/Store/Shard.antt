-- ===== src/Store/Shard.antt =====
-- One shard of src/store/KvStore.hpp: `std::unordered_map<std::string, Entry>` as an association list.
-- The program only finds, assigns, erases and counts, so the order of the entries is not modelled.
use redis_cpp.Base.{
  ◌≡◌, refl, Option, none, some, List, [], ◌∷◌, Bytes, bytes_eq, bytes_eq_iff, ℤ, arith,
  if◌then◌else◌,
}

-- store::Entry; a negative `expire_at_ms` stands for a key that does not expire.
pub record Entry : Type 0 where
  pub value : Bytes
  pub expire_at_ms : ℤ

abbrev pub Shard : Type 0
Shard = List (Bytes × Entry)

-- map.find
unfoldable pub find : Bytes → Shard → Option Entry
find k [] = none
find k ((j, e) ∷ m) = if bytes_eq j k then some e else find k m

-- map[key] = entry
unfoldable pub put : Bytes → Entry → Shard → Shard
put k e [] = (k, e) ∷ []
put k e ((j, f) ∷ m) = let rest = put k e m in if bytes_eq j k then (j, e) ∷ m else (j, f) ∷ rest

-- map.erase
unfoldable pub erase : Bytes → Shard → Shard
erase k [] = []
erase k ((j, e) ∷ m) = let rest = erase k m in if bytes_eq j k then rest else (j, e) ∷ rest

pub find-put :
    (k j : Bytes) (e : Entry) (m : Shard)
    → find j (put k e m) ≡ (if bytes_eq k j then some e else find j m)
unfolding find put
find-put k j e [] = refl
find-put k j e ((i, f) ∷ m) =
    ground (arith, bytes_eq_iff k j, bytes_eq_iff i k, bytes_eq_iff i j, find-put k j e m)

pub find-erase :
    (k j : Bytes) (m : Shard) → find j (erase k m) ≡ (if bytes_eq k j then none else find j m)
unfolding find erase
find-erase k j [] = ground arith
find-erase k j ((i, f) ∷ m) =
    ground (arith, bytes_eq_iff k j, bytes_eq_iff i k, bytes_eq_iff i j, find-erase k j m)
