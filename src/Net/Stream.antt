-- ===== src/Net/Stream.antt =====
-- A stream of requests, as a client writes them one behind the other.
use redis_cpp.Base.{
  ℕ, zero, suc, ◌+◌, ◌≤◌, ◌<◌, ◌≡◌, ◌≢◌, refl, sym, ap, subst, ◌∙◌, Bool, true, false, List, [],
  ◌∷◌, ◌++◌, Bytes, leb, length, arith, Bool-cases, inl, inr, length-append, append_assoc,
  append-nil, drop-append_length,
}
use redis_cpp.Resp.Encode.{array}
use redis_cpp.Resp.Parser.{complete, incomplete, returns, parse}
use redis_cpp.Resp.RoundTrip.{parse-array}
use redis_cpp.Resp.Prefix.{parse-piece}
use redis_cpp.Resp.Rounds.{Fits}
use redis_cpp.Resp.Steps.{parse_nil}
use redis_cpp.Net.Frames.{LoopEnd, frames_loop, extract_frames}

unfoldable pub requests : List (List Bytes) → Bytes
requests [] = []
requests (r ∷ rs) = array r ++ requests rs

pub length-requests :
    (rs ss : List (List Bytes))
    → length (requests (rs ++ ss)) ≡ length (requests rs) + length (requests ss)
unfolding requests
length-requests [] ss = omega arith
length-requests (r ∷ rs) ss = omega (
  arith,
  length-append (array r) (requests (rs ++ ss)),
  length-append (array r) (requests rs),
  length-requests rs ss,
)

module _ (can_reserve : ℕ → Bool) where
  -- A request has an argument, it is shorter than 2^62 bytes, and the vector for its arguments can be
  -- reserved.
  abbrev pub Whole : List Bytes → Type 0
  Whole r = (r ≢ []) × Fits (array r) × (can_reserve (length r) ≡ true)

  abbrev pub AllWhole : List (List Bytes) → Type 0
  AllWhole [] = Unit {0}
  AllWhole (r ∷ rs) = Whole r × AllWhole rs

  pub parse-Whole :
      (r : List Bytes) (rest : Bytes) (out : List (List Bytes))
      → Whole r
      → Fits (array r ++ rest)
      → parse can_reserve (array r ++ rest) out 0
        ≡ returns (record { result = complete; cmds = out ++ r ∷ []; consumed = length (array r) })
  parse-Whole [] rest out h f = absurd (h.0 refl)
  parse-Whole (a ∷ r) rest out h f = parse-array can_reserve a r rest out 0 f h.2

  -- Data that parse waits on for more.
  abbrev pub Waits : Bytes → Type 0
  Waits v =
      (out : List (List Bytes))
      → parse can_reserve v out 0
        ≡ returns (record { result = incomplete; cmds = out; consumed = 0 })

  piece-Waits : (r : List Bytes) (v t : Bytes) → Whole r → v ++ t ≡ array r → t ≢ [] → Waits v
  piece-Waits [] v t w e ne out = absurd (w.0 refl)
  piece-Waits (a ∷ r) v t w e ne out = parse-piece can_reserve a r out 0 v t e ne w.1 w.2

  length-array : (r : List Bytes) → 0 < length (array r)
  unfolding array
  length-array r = omega arith

  ended : ℕ → List (List Bytes) → LoopEnd
  ended n out = record { consumed = n; cmds = out; alive = true }

  -- The loop behind `done` bytes that are consumed already.
  frames_loop-Waits :
      (done v : Bytes) (fuel : ℕ) (out : List (List Bytes))
      → Waits v
      → frames_loop can_reserve fuel (done ++ v) (length done) out
        ≡ returns (ended (length done) out)
  unfolding frames_loop ended
  frames_loop-Waits done v zero out w = refl
  frames_loop-Waits done v (suc fuel) out w = rw (drop-append_length done v) (
      rw (w out) (elim (Bool-cases (leb (length (done ++ v)) (length done))) [
        | inl e ↦ rw e refl
        | inr e ↦ rw e refl
      ]))

  frames_loop-Whole :
      (r : List Bytes) (done rest : Bytes) (fuel : ℕ) (out : List (List Bytes))
      → Whole r
      → Fits (array r ++ rest)
      → frames_loop can_reserve (suc fuel) (done ++ (array r ++ rest)) (length done) out
        ≡ frames_loop can_reserve fuel
            (done ++ (array r ++ rest))
            (length done + length (array r))
            (out ++ r ∷ [])
  unfolding frames_loop
  frames_loop-Whole r done rest fuel out w f =
      let more : leb (length (done ++ (array r ++ rest))) (length done) ≡ false = ground (
        arith,
        length-append done (array r ++ rest),
        length-append (array r) rest,
        length-array r,
      ) in
      rw (more, drop-append_length done (array r ++ rest)) (rw (parse-Whole r rest out w f) refl)

  same_end :
      (r : List Bytes) (rs : List (List Bytes)) (done : Bytes) (out : List (List Bytes))
      → ended (length (done ++ array r) + length (requests rs)) ((out ++ r ∷ []) ++ rs)
        ≡ ended (length done + length (requests (r ∷ rs))) (out ++ r ∷ rs)
  unfolding ended requests
  same_end r rs done out = rw (append_assoc out (r ∷ []) rs) (
      ap (λ n. ended n (out ++ r ∷ rs))
        (omega (arith, length-append done (array r), length-append (array r) (requests rs))))

  frames_loop-requests :
      (rs : List (List Bytes)) (done v : Bytes) (fuel : ℕ) (out : List (List Bytes))
      → AllWhole rs
      → Fits (requests rs ++ v)
      → Waits v
      → length (requests rs) ≤ fuel
      → frames_loop can_reserve fuel (done ++ (requests rs ++ v)) (length done) out
        ≡ returns (ended (length done + length (requests rs)) (out ++ rs))
  unfolding ended requests
  frames_loop-requests [] done v fuel out h f w enough =
      frames_loop-Waits done v fuel out w
      ∙ ap (λ e. returns e)
          (unfold ended in rw (append-nil out) (ap (λ n. ended n out) (omega arith)))
  frames_loop-requests (r ∷ rs) done v zero out h f w enough =
      absurd (omega (arith, length-array r, length-append (array r) (requests rs)))
  frames_loop-requests (r ∷ rs) done v (suc fuel) out h f w enough =
      let buf = done ++ (array r ++ (requests rs ++ v)) in
      let later : Fits (array r ++ (requests rs ++ v)) =
        subst Fits (append_assoc (array r) (requests rs) v) f in
      let regroup : buf ≡ (done ++ array r) ++ (requests rs ++ v) =
        sym (append_assoc done (array r) (requests rs ++ v)) in
      ap (λ b. frames_loop can_reserve (suc fuel) (done ++ b) (length done) out)
        (append_assoc (array r) (requests rs) v)
      ∙ frames_loop-Whole r done (requests rs ++ v) fuel out h.0 later
      ∙ ap (λ n. frames_loop can_reserve fuel buf n (out ++ r ∷ []))
          (sym (length-append done (array r)))
      ∙ ap (λ b. frames_loop can_reserve fuel b (length (done ++ array r)) (out ++ r ∷ [])) regroup
      ∙ frames_loop-requests rs (done ++ array r) v fuel (out ++ r ∷ []) h.1
          (omega (arith, later, length-append (array r) (requests rs ++ v))) w
          (omega (arith, enough, length-array r, length-append (array r) (requests rs)))
      ∙ ap returns (same_end r rs done out)

  -- Requests one behind the other, followed by data that parse finds INCOMPLETE, are cut into
  -- exactly those requests, in order, and the data stays in the buffer of a connection that is
  -- kept. Each request has an argument and a vector that can be reserved, and it and the whole
  -- buffer are shorter than 2^62 bytes.
  pub extract_frames-requests :
      (rs : List (List Bytes)) (v : Bytes)
      → AllWhole rs
      → Fits (requests rs ++ v)
      → Waits v
      → extract_frames can_reserve (requests rs ++ v)
        ≡ returns (record { recv_buf = v; cmds = rs; alive = true })
  unfolding extract_frames
  extract_frames-requests rs v h f w =
      let buf = requests rs ++ v in
      let e : frames_loop can_reserve (length buf) buf 0 []
          ≡ returns (ended (length (requests rs)) rs) =
        frames_loop-requests rs [] v (length buf) [] h f w
          (omega (arith, length-append (requests rs) v))
        ∙ ap (λ n. returns (ended n rs)) (omega arith) in
      rw (e, extract_frames) (unfold ended in rw (drop-append_length (requests rs) v) refl)

  prefix_split :
      (a b c d : Bytes)
      → a ++ b ≡ c ++ d
      → length c ≤ length a
      → (m : Bytes) × (a ≡ c ++ m) × (m ++ b ≡ d)
  prefix_split a b [] d e le = (a, refl, e)
  prefix_split [] b (x ∷ c) d e le = absurd (omega arith)
  prefix_split (y ∷ a) b (x ∷ c) d e le =
      let (m, p, q) = prefix_split a b c d (cc) (omega arith) in (m, cc, q)

  -- A stream of requests that is cut anywhere: some requests are whole, and the rest waits.
  pub record Cut (rs : List (List Bytes)) (p t : Bytes) : Type 0 where
    pub done : List (List Bytes)
    pub rest : List (List Bytes)
    pub piece : Bytes
    pub all : rs ≡ done ++ rest
    pub front : p ≡ requests done ++ piece
    pub back : piece ++ t ≡ requests rest
    pub done_whole : AllWhole done
    pub rest_whole : AllWhole rest
    pub waits : Waits piece

  pub requests-Cut :
      (rs : List (List Bytes)) (p t : Bytes) → AllWhole rs → p ++ t ≡ requests rs → Cut rs p t
  unfolding requests
  requests-Cut [] [] t h e = record {
    done = [];
    rest = [];
    piece = [];
    all = refl;
    front = refl;
    back = e;
    done_whole = tt;
    rest_whole = tt;
    waits = λ out. parse_nil can_reserve out 0;
  }
  requests-Cut [] (x ∷ p) t h e = absurd cc
  requests-Cut (r ∷ rs) p t h e = elim (Bool-cases (leb (length (array r)) (length p))) [
    | inl le ↦
        longer (λ m q. requests-Cut rs m t h.1 q)
          (prefix_split p t (array r) (requests rs) e (ground arith))
    | inr gt ↦
        shorter (ground arith) (prefix_split (array r) (requests rs) p t (sym e) (ground arith))
  ]
    where
      longer :
          ((m : Bytes) → m ++ t ≡ requests rs → Cut rs m t)
          → (m : Bytes) × (p ≡ array r ++ m) × (m ++ t ≡ requests rs)
          → Cut (r ∷ rs) p t
      longer shorten (m, p', q) =
          let c = shorten m q in
          record {
            done = r ∷ c.done;
            rest = c.rest;
            piece = c.piece;
            all = ap (λ x. r ∷ x) c.all;
            front =
                p'
                ∙ ap (λ x. array r ++ x) c.front
                ∙ sym (append_assoc (array r) (requests c.done) c.piece);
            back = c.back;
            done_whole = (h.0, c.done_whole);
            rest_whole = c.rest_whole;
            waits = c.waits;
          }

      not_all : (m : Bytes) → length p < length (array r) → array r ≡ p ++ m → m ≡ [] → ⊥
      not_all m lt p' z = omega (arith, lt, ap length (p' ∙ ap (λ x. p ++ x) z ∙ append-nil p))

      shorter :
          length p < length (array r)
          → (m : Bytes) × (array r ≡ p ++ m) × (m ++ requests rs ≡ t)
          → Cut (r ∷ rs) p t
      shorter lt (m, p', q) = record {
        done = [];
        rest = r ∷ rs;
        piece = p;
        all = refl;
        front = refl;
        back = e;
        done_whole = tt;
        rest_whole = h;
        waits = piece-Waits r p m h.0 (sym p') (λ z. absurd (not_all m lt p' z));
      }
