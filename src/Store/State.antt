-- ===== src/Store/State.antt =====
-- The state of `KvStore` (src/store/KvStore.hpp), and how a key reaches its shard.
use redis_cpp.Base.{
  ℕ, ◌+◌, ◌-◌, ◌*◌, ◌%◌, bit_and, bit_xor, Bool, not, ◌||◌, Option, none, some, List, [], ◌∷◌,
  Bytes, ◌==◌, if◌then◌else◌, get_or, set, replicate,
}
use redis_cpp.Aof.Writer.{AofWriter}
use redis_cpp.Ttl.Heap.{MinHeap}
use redis_cpp.Store.Shard.{Entry, Shard}
use redis_cpp.Store.Shard

-- `ttl_mgr` is the heap of the TtlManager, if there is one, and `aof` the writer that `aof_` points to.
pub record KvStore : Type 0 where
  pub shards : List Shard
  pub n_shards : ℕ
  pub ttl_mgr : Option MinHeap
  pub aof : Option AofWriter
  pub stat_set : ℕ
  pub stat_get : ℕ
  pub stat_del : ℕ
  pub stat_expired : ℕ

abbrev pub default_shards : ℕ
default_shards = 16

-- The constructor; `none` is its exception `invalid_argument`.
unfoldable pub make_store : ℕ → Option AofWriter → Bool → Option KvStore
make_store n aof enable_ttl =
    if (n == 0) || not (bit_and n (n - 1) == 0)
    then none
    else some (record {
      shards = replicate n [];
      n_shards = n;
      ttl_mgr = if enable_ttl then some [] else none;
      aof = aof;
      stat_set = 0;
      stat_get = 0;
      stat_del = 0;
      stat_expired = 0;
    })

unfoldable pub set_aof : KvStore → Option AofWriter → KvStore
set_aof s aof = record s { aof = aof }

-- fetch_add(1) on a `std::atomic<uint64_t>`
abbrev pub bump : ℕ → ℕ
bump n = (n + 1) % 18446744073709551616

-- DJB2, in uint64_t: h = ((h << 5) + h) ^ c
unfoldable pub hash_from : ℕ → Bytes → ℕ
hash_from h [] = h
hash_from h (c ∷ s) =
    hash_from (bit_xor ((h * 32 % 18446744073709551616 + h) % 18446744073709551616) c) s

unfoldable pub shard_index : KvStore → Bytes → ℕ
unfolding hash_from
shard_index s key = bit_and (hash_from 5381 key) (s.n_shards - 1)

unfoldable pub shard_for : KvStore → Bytes → Shard
unfolding shard_index
shard_for s key = get_or s.shards (shard_index s key) []

-- The three uses of a shard's map: find, assign and erase in the shard of the key.
unfoldable pub find : KvStore → Bytes → Option Entry
find s key = Shard.find key (shard_for s key)

unfoldable pub put : KvStore → Bytes → Entry → KvStore
put s key e = record s {
  shards = set s.shards (shard_index s key) (Shard.put key e (shard_for s key));
}

unfoldable pub erase : KvStore → Bytes → KvStore
erase s key = record s {
  shards = set s.shards (shard_index s key) (Shard.erase key (shard_for s key));
}
