-- ===== src/Models/Fallback.antt =====
-- `chat_with_fallbacks` and `_chat_retrying` of src/aegis_fabric/models.py. A call of a provider is a
-- parameter that may depend on the state of the world and changes it; the calls made are recorded.
use aegis_capstone.Common.{
  ℕ, zero, suc, ◌+◌, ◌≤◌, String, ◌≡◌, refl, sym, ap, ◌∙◌, Option, none, some, List, [], ◌∷◌, ◌++◌,
  arith, length, All, ◌*◌, All-append, length-append,
}
use aegis_capstone.Models.{ModelProfile}
use mathlib.Core.List.{append_assoc, append-nil}

-- How a call ends: a reply, a transport or status error, which `tenacity` tries again, or another
-- exception.
pub data CallEnd : Type 0 where
  replied : String → CallEnd
  transport_error other_error : CallEnd

pub record Run (W : Type 0) : Type 0 where
  pub world : W
  pub calls : List ModelProfile

suc_times : (n m : ℕ) → m + n * m ≤ suc n * m
suc_times n m = grind arith

module _ {W : Type 0} (chat : ModelProfile → W → CallEnd × W) where
  abbrev pub call : ModelProfile → Run W → CallEnd × Run W
  call p s = ((chat p s.world).0, record { world = (chat p s.world).1; calls = s.calls ++ p ∷ [] })

  -- How an attempt goes on: `rest` is what the next attempt would give.
  abbrev pub settle : CallEnd → Run W → Option String × Run W → Option String × Run W
  settle (replied r) u rest = (some r, u)
  settle transport_error u rest = rest
  settle other_error u rest = (none, u)

  -- `_chat_retrying`, with the attempts that are left after the first; `none` is the error raised.
  unfoldable pub retrying : ℕ → ModelProfile → Run W → Option String × Run W
  retrying zero p s = settle (call p s).0 (call p s).1 (none, (call p s).1)
  retrying (suc n) p s = settle (call p s).0 (call p s).1 (retrying n p (call p s).1)

  abbrev pub or_next : Option String × Run W → Option String × Run W → Option String × Run W
  or_next (some r, u) rest = (some r, u)
  or_next (none, u) rest = rest

  -- `chat_with_fallbacks`; `max_retries` is the setting, and `none` the final RuntimeError.
  unfoldable pub chat_with_fallbacks : ℕ → List ModelProfile → Run W → Option String × Run W
  unfolding retrying
  chat_with_fallbacks max_retries [] s = (none, s)
  chat_with_fallbacks max_retries (p ∷ profiles) s =
      or_next (retrying max_retries p s)
        (chat_with_fallbacks max_retries profiles (retrying max_retries p s).1)

  -- What was called between two states: only models with the property, and so many calls.
  pub record Called (P : ModelProfile → Type 0) (low high : ℕ) (s t : Run W) : Type 0 where
    pub new_calls : List ModelProfile
    pub added : t.calls ≡ s.calls ++ new_calls
    pub each : All P new_calls
    pub least : low ≤ length new_calls
    pub most : length new_calls ≤ high

  one_call :
      (P : ModelProfile → Type 0) (p : ModelProfile) (s : Run W) (n : ℕ)
      → P p
      → 1 ≤ n
      → Called P 1 n s (call p s).1
  one_call P p s n h l = record {
    new_calls = p ∷ [];
    added = refl;
    each = (h, tt);
    least = omega arith;
    most = omega arith;
  }

  Called-trans :
      (P : ModelProfile → Type 0) (a b c d : ℕ) (s t u : Run W)
      → Called P a b s t
      → Called P c d t u
      → Called P (a + c) (b + d) s u
  Called-trans P a b c d s t u x y = record {
    new_calls = x.new_calls ++ y.new_calls;
    added =
        y.added
        ∙ (ap (λ l. l ++ y.new_calls) x.added ∙ append_assoc s.calls x.new_calls y.new_calls);
    each = All-append P x.new_calls y.new_calls x.each y.each;
    least = omega (arith, length-append {0} x.new_calls y.new_calls, x.least, y.least);
    most = omega (arith, length-append {0} x.new_calls y.new_calls, x.most, y.most);
  }

  Called-weaken :
      (P : ModelProfile → Type 0) (a b c d : ℕ) (s t : Run W)
      → c ≤ a
      → b ≤ d
      → Called P a b s t
      → Called P c d s t
  Called-weaken P a b c d s t l m x = record {
    new_calls = x.new_calls;
    added = x.added;
    each = x.each;
    least = omega (arith, x.least);
    most = omega (arith, x.most);
  }

  settled :
      (P : ModelProfile → Type 0) (n : ℕ) (p : ModelProfile) (s : Run W) (e : CallEnd)
      (rest : Option String × Run W)
      → P p
      → Called P 1 (1 + n) s rest.1
      → Called P 1 (1 + n) s (settle e (call p s).1 rest).1
  settled P n p s (replied r) rest h c = one_call P p s (1 + n) h (omega arith)
  settled P n p s transport_error rest h c = c
  settled P n p s other_error rest h c = one_call P p s (1 + n) h (omega arith)

  retrying-Called :
      (P : ModelProfile → Type 0) (n : ℕ) (p : ModelProfile) (s : Run W)
      → P p
      → Called P 1 (1 + n) s (retrying n p s).1
  unfolding retrying
  retrying-Called P zero p s h =
      settled P 0 p s (call p s).0 (none, (call p s).1) h (one_call P p s 1 h (omega arith))
  retrying-Called P (suc n) p s h =
      settled P (suc n) p s (call p s).0 (retrying n p (call p s).1) h (
        Called-weaken P 2 (1 + (1 + n)) 1 (1 + suc n) s (retrying n p (call p s).1).1 (omega arith)
          (omega arith)
          (Called-trans P 1 1 1 (1 + n) s (call p s).1 (retrying n p (call p s).1).1
            (one_call P p s 1 h (omega arith)) (retrying-Called P n p (call p s).1 h)))

  next :
      (P : ModelProfile → Type 0) (m k : ℕ) (s : Run W) (r : Option String × Run W)
      (rest : Option String × Run W)
      → Called P 1 m s r.1
      → (rest.0 ≡ none → Called P k (k * m) r.1 rest.1)
      → Called P 0 (k * m) r.1 rest.1
      → Called P 0 (m + k * m) s (or_next r rest).1
        × ((or_next r rest).0 ≡ none → Called P (1 + k) (m + k * m) s (or_next r rest).1)
  next P m k s (some x, u) rest c f g =
      (Called-weaken P 1 m 0 (m + k * m) s u (omega arith) (omega arith) c, λ q. cc)
  next P m k s (none, u) rest c f g = (
    Called-weaken P 1 (m + k * m) 0 (m + k * m) s rest.1 (omega arith) (omega arith)
        (Called-trans P 1 m 0 (k * m) s u rest.1 c g),
    λ q. Called-trans P 1 m k (k * m) s u rest.1 c (f q),
  )

  -- Whatever holds of every candidate holds of every model that is called; the calls are at most the
  -- candidates times one more than the retries; and if no reply comes back, there have been at least
  -- as many calls as candidates.
  pub chat_with_fallbacks-Called :
      (P : ModelProfile → Type 0) (max_retries : ℕ) (profiles : List ModelProfile) (s : Run W)
      → All P profiles
      → Called P 0
          (length profiles * (1 + max_retries))
          s
          (chat_with_fallbacks max_retries profiles s).1
        × ((chat_with_fallbacks max_retries profiles s).0 ≡ none
            → Called P
                (length profiles)
                (length profiles * (1 + max_retries))
                s
                (chat_with_fallbacks max_retries profiles s).1)
  unfolding chat_with_fallbacks
  chat_with_fallbacks-Called P k [] s h =
      let z : Called P 0 (0 * (1 + k)) s s = record {
        new_calls = [];
        added = sym (append-nil s.calls);
        each = tt;
        least = omega arith;
        most = omega arith;
      } in
      (z, λ q. z)
  chat_with_fallbacks-Called P k (p ∷ profiles) s h =
      let r = retrying k p s in
      let ih = chat_with_fallbacks-Called P k profiles r.1 h.1 in
      let n = length profiles in
      let x =
        next P (1 + k) n s r (chat_with_fallbacks k profiles r.1) (retrying-Called P k p s h.0) ih.1
          ih.0 in
      let t = (chat_with_fallbacks k (p ∷ profiles) s).1 in
      (
        Called-weaken P 0 ((1 + k) + n * (1 + k)) 0 (suc n * (1 + k)) s t (omega arith)
            (suc_times n (1 + k)) x.0,
        λ q.
            Called-weaken P (1 + n) ((1 + k) + n * (1 + k)) (suc n) (suc n * (1 + k)) s t
              (omega arith) (suc_times n (1 + k)) (x.1 q),
      )
