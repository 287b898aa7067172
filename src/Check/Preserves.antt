-- ===== src/Check/Preserves.antt =====
-- check.go: what all tiers leave alone, for any relation of worlds.
use go_txnpure.Base.{
  if◌then◌else◌, ℤ, inc64, nat_eq, Bytes, bytes_Eq, ℕ, Bool, true, false, Option, none, some, List,
}
use go_txnpure.Allow.Counts.{covers_calls}
use go_txnpure.Allow.{note_declared}
use go_txnpure.Allowlist.{Decision, decide}
use go_txnpure.Check.{
  CheckConfig, Verdict, covered, declined, ◌>>=◌, call_site, region, listed, listed_by, listed_in,
  verdict,
}
use go_txnpure.Identity.{Op, ViolationKey, key_of}
use go_txnpure.State.{AllowMark, Allowlist, World, put_mark}

abbrev pub VerdictKeeps : (World → World → Type 0) → World → Verdict → Type 0
VerdictKeeps Rel w (covered w') = Rel w w'
VerdictKeeps Rel w (declined counts w') = Rel w w'

VerdictKeeps-if :
    (Rel : World → World → Type 0) (w : World) (b : Bool) (x y : Verdict)
    → VerdictKeeps Rel w x
    → VerdictKeeps Rel w y
    → VerdictKeeps Rel w (if b then x else y)
VerdictKeeps-if Rel w true x y p q = p
VerdictKeeps-if Rel w false x y p q = q

-- The relation holds of the three changes that a tier makes.
pub record Tolerant (Rel : World → World → Type 0) : Type 0 where
  pub same : (w : World) → Rel w w
  pub chain : (u v w : World) → Rel u v → Rel v w → Rel u w
  pub note :
      (i : ℕ) (key : ViolationKey) (counts : List ℤ) (reason : Bytes) (w : World)
      → Rel w (note_declared i key counts reason w)
  pub mark : (m : ℕ) (a : AllowMark) (w : World) → Rel w (put_mark m a w)
  pub list : (a : Option Allowlist) (w : World) → Rel w (record w { allowlist = a })

module _ (Rel : World → World → Type 0) (t : Tolerant Rel) where
  -- A tier may follow another.
  VerdictKeeps-bind :
      (w : World) (x : Verdict) (tier : List ℤ × World → Verdict)
      → VerdictKeeps Rel w x
      → ((counts : List ℤ) (u : World) → VerdictKeeps Rel u (tier (counts, u)))
      → VerdictKeeps Rel w (x >>= tier)
  VerdictKeeps-bind w (covered u) tier p next = p
  VerdictKeeps-bind w (declined counts u) tier p next = onwards (tier (counts, u)) (next counts u)
    where
      onwards : (y : Verdict) → VerdictKeeps Rel u y → VerdictKeeps Rel w y
      onwards (covered v) q = t.chain w u v p q
      onwards (declined more v) q = t.chain w u v p q

  pub call_site-VerdictKeeps :
      (cfg : CheckConfig) (i : ℕ) (key : ViolationKey) (k : ℤ) (w : World)
      → VerdictKeeps Rel w (call_site cfg i key k w)
  unfolding call_site
  call_site-VerdictKeeps cfg i key k w =
      let kept = t.note i key cfg.allow_counts cfg.allow_reason w in
      VerdictKeeps-if Rel w cfg.allowed _ _
        (VerdictKeeps-if Rel w (covers_calls cfg.allow_counts k) _ _ kept kept) (t.same w)

  pub region-VerdictKeeps :
      (mark : Option ℕ) (counts : List ℤ) (w : World) → VerdictKeeps Rel w (region mark (counts, w))
  unfolding region
  region-VerdictKeeps none counts w = t.same w
  region-VerdictKeeps (some m) counts w =
      VerdictKeeps-if Rel w (covers_calls (w.mark_at m).counts (inc64 (w.mark_at m).n)) _ _
        (t.mark m _ w) (t.mark m _ w)

  pub listed_by-VerdictKeeps :
      (i : ℕ) (key : ViolationKey) (counts : List ℤ) (w : World) (e : Option Decision)
      → VerdictKeeps Rel w (listed_by i key counts w e)
  listed_by-VerdictKeeps i key counts w none = t.same w
  listed_by-VerdictKeeps i key counts w (some e) =
      let q = t.note i key e.counts e.reason w in VerdictKeeps-if Rel w e.covered _ _ q q

  listed-VerdictKeeps :
      (i : ℕ) (op : Op) (key : ViolationKey) (k : ℤ) (counts : List ℤ) (w : World)
      → VerdictKeeps Rel w (listed i op key k (counts, w))
  unfolding listed
  listed-VerdictKeeps i op key k counts w = at_list w.allowlist
    where
      behind : (u : World) (v : Verdict) → Rel w u → VerdictKeeps Rel u v → VerdictKeeps Rel w v
      behind u (covered x) p q = t.chain w u x p q
      behind u (declined more x) p q = t.chain w u x p q

      at_list : (a : Option Allowlist) → VerdictKeeps Rel w (listed_in i op key k (counts, w) a)
      at_list none = t.same w
      at_list (some a) =
          let (e, a') = decide a (w.scope_at i).name op k in
          behind _ (listed_by i key counts (record w { allowlist = some a' }) e) (t.list _ w)
            (listed_by-VerdictKeeps i key counts _ e)

  pub verdict-VerdictKeeps :
      (i : ℕ) (mark : Option ℕ) (op : Op) (k : ℤ) (cfg : CheckConfig) (w : World)
      → VerdictKeeps Rel w (verdict i mark op k cfg w)
  unfolding verdict
  verdict-VerdictKeeps i mark op k cfg w =
      let key = key_of (w.scope_at i).name op in
      VerdictKeeps-bind w (call_site cfg i key k w) _ (call_site-VerdictKeeps cfg i key k w)
        λ counts u.
          VerdictKeeps-bind u (region mark (counts, u)) _ (region-VerdictKeeps mark counts u)
            (listed-VerdictKeeps i op key k)
