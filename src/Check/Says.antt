-- ===== src/Check/Says.antt =====
-- check.go: each tier against its entry in the list of tiers.
use go_txnpure.Base.{
  if◌then◌else◌, any, ℤ, inc64, nat_eq, bytes_Eq, insert, ℕ, ◌≡◌, refl, sym, ◌∙◌, Bool, true, false,
  ◌||◌, Option, none, some, List, [], ◌∷◌, ◌++◌, arith,
}
use mathlib.Core.List.{append_assoc, append-nil}
use go_txnpure.Allow.Counts.{covers_calls}
use go_txnpure.Allow.{note_declared}
use go_txnpure.Allowlist.{Decision, decide, decide_entry, find_entry}
use go_txnpure.Check.{
  CheckConfig, Verdict, covered, declined, ◌>>=◌, call_site, region, listed, listed_by, listed_in,
}
use go_txnpure.Check.Tiers.{
  Tier, call_tier, region_tier, entry_tier, list_tier, allows, all_counts, Looks, Looks-refl,
  Looks-trans, Notes, Notes-note_declared,
}
use go_txnpure.Identity.{Op, ViolationKey, key_Eq}
use go_txnpure.State.{Allowlist, AllowlistEntry, World}

-- A verdict on the world `w` that agrees with a list of tiers; `P` holds of the world that the next
-- tier is asked in.
abbrev pub Says : (World → Type 0) → World → List ℤ → List Tier → Verdict → Type 0
Says P w counts ts (covered u) = (any allows ts ≡ true) × Looks w u
Says P w counts ts (declined more u) =
    (any allows ts ≡ false) × (more ≡ counts ++ all_counts ts) × Looks w u × P u

any-append : (xs ys : List Tier) → any allows (xs ++ ys) ≡ (any allows xs || any allows ys)
any-append [] ys = refl
any-append (x ∷ xs) ys = rw (any-append xs ys) (ground arith)

all_counts-append : (xs ys : List Tier) → all_counts (xs ++ ys) ≡ all_counts xs ++ all_counts ys
all_counts-append [] ys = refl
all_counts-append ((cs, n) ∷ xs) ys =
    rw (all_counts-append xs ys) (sym (append_assoc cs (all_counts xs) (all_counts ys)))

-- One tier after another.
pub Says-bind :
    (P Q : World → Type 0) (w : World) (counts : List ℤ) (xs ys : List Tier) (x : Verdict)
    (tier : List ℤ × World → Verdict)
    → Says P w counts xs x
    → ((more : List ℤ) (u : World) → Looks w u → P u → Says Q u more ys (tier (more, u)))
    → Says Q w counts (xs ++ ys) (x >>= tier)
Says-bind P Q w counts xs ys (covered u) tier (hit, look) next =
    (any-append xs ys ∙ rw hit refl, look)
Says-bind P Q w counts xs ys (declined more u) tier (miss, same, look, p) next =
    onwards (tier (more, u)) (next more u look p)
  where
    onwards : (y : Verdict) → Says Q u more ys y → Says Q w counts (xs ++ ys) y
    onwards (covered v) (hit, further) =
        (any-append xs ys ∙ rw (miss, hit) refl, Looks-trans look further)
    onwards (declined most v) (miss', same', further, q) = (
      any-append xs ys ∙ rw (miss, miss') refl,
      rw (same', same, all_counts-append xs ys)
          (append_assoc counts (all_counts xs) (all_counts ys)),
      Looks-trans look further,
      q,
    )

-- One tier that is present.
pub Says-one :
    (P : World → Type 0) (w : World) (counts cs : List ℤ) (n : ℤ) (u : World)
    → Looks w u
    → P u
    → Says P w counts
        ((cs, n) ∷ [])
        (if covers_calls cs n then covered u else declined (counts ++ cs) u)
Says-one P w counts cs n u look p = at (covers_calls cs n) refl
  where
    at :
        (b : Bool)
        → covers_calls cs n ≡ b
        → Says P w counts ((cs, n) ∷ []) (if b then covered u else declined (counts ++ cs) u)
    at true e = (rw e refl, look)
    at false e = (rw e refl, rw (append-nil cs) refl, look, p)

-- No tier.
pub Says-none :
    (P : World → Type 0) (w : World) (counts : List ℤ)
    → P w
    → Says P w counts [] (declined counts w)
Says-none P w counts p = (refl, sym (append-nil counts), Looks-refl w, p)

-- What the call site leaves for the other tiers, and the region for the list.
abbrev pub Untouched : World → World → Type 0
Untouched w u = (u.mark_at ≡ w.mark_at) × (u.allowlist ≡ w.allowlist)

pub call_site-Says :
    (cfg : CheckConfig) (i : ℕ) (key : ViolationKey) (k : ℤ) (w : World)
    → Says (Untouched w) w [] (call_tier cfg k) (call_site cfg i key k w)
unfolding call_site
call_site-Says cfg i key k w = at cfg.allowed
  where
    noted : Notes w (note_declared i key cfg.allow_counts cfg.allow_reason w)
    noted = Notes-note_declared i key cfg.allow_counts cfg.allow_reason w

    at :
        (b : Bool)
        → Says (Untouched w) w [] (if b then (cfg.allow_counts, k) ∷ [] else []) (
            if b
            then (let w' = note_declared i key cfg.allow_counts cfg.allow_reason w in
                if covers_calls cfg.allow_counts k
                then covered w'
                else declined cfg.allow_counts w')
            else declined [] w)
    at true = Says-one (Untouched w) w [] cfg.allow_counts k _ noted.looks (noted.marks, noted.list)
    at false = Says-none (Untouched w) w [] (refl, refl)

abbrev pub SameList : Option Allowlist → World → Type 0
SameList a u = u.allowlist ≡ a

pub region-Says :
    (mark : Option ℕ) (counts : List ℤ) (w : World)
    → Says (SameList w.allowlist) w counts (region_tier w.mark_at mark) (region mark (counts, w))
unfolding region
region-Says none counts w = Says-none (SameList w.allowlist) w counts refl
region-Says (some m) counts w =
    Says-one (SameList w.allowlist) w counts (w.mark_at m).counts (inc64 (w.mark_at m).n) _
      (record { names = λ j. refl; attrs = λ j. refl; reporters = refl }) refl

abbrev pub Anything : World → Type 0
Anything u = Unit

pub listed-Says :
    (i : ℕ) (op : Op) (key : ViolationKey) (k : ℤ) (counts : List ℤ) (w : World)
    → Says Anything w counts
        (list_tier w.allowlist (w.scope_at i).name op k)
        (listed i op key k (counts, w))
unfolding listed decide
listed-Says i op key k counts w = at_list w.allowlist
  where
    with_list : Option Allowlist → World
    with_list a = record w { allowlist = a }

    relisted : (a : Option Allowlist) → Looks w (with_list a)
    relisted a = record { names = λ j. refl; attrs = λ j. refl; reporters = refl }

    at_entry :
        (a : Allowlist) (o : Option (ViolationKey × AllowlistEntry))
        → Says Anything w counts (entry_tier o k) (
            listed_by i key counts (with_list (some (decide_entry a k o).1)) (decide_entry a k o).0)
    at_entry a none = (refl, sym (append-nil counts), relisted (some a), tt)
    at_entry a (some (at_key, e)) = decided (covers_calls e.counts k) refl
      where
        noted : (u : World) → Looks u (note_declared i key e.counts e.reason u)
        noted u = (Notes-note_declared i key e.counts e.reason u).looks

        entry : Bool → Option Decision × Allowlist
        entry b =
            if b
            then (
              some (record { covered = true; counts = e.counts; reason = e.reason }),
              record { entries = insert at_key (record e { used = true }) a.entries },
            )
            else (some (record { covered = false; counts = e.counts; reason = e.reason }), a)

        decided :
            (b : Bool)
            → covers_calls e.counts k ≡ b
            → Says Anything w counts
                ((e.counts, k) ∷ [])
                (listed_by i key counts (with_list (some (entry b).1)) (entry b).0)
        decided true h = (rw h refl, Looks-trans (relisted _) (noted _))
        decided false h =
            (rw h refl, rw (append-nil e.counts) refl, Looks-trans (relisted _) (noted _), tt)

    at_list :
        (a : Option Allowlist)
        → Says Anything w counts
            (list_tier a (w.scope_at i).name op k)
            (listed_in i op key k (counts, w) a)
    at_list none = Says-none Anything w counts tt
    at_list (some a) = at_entry a (find_entry a (w.scope_at i).name op)
