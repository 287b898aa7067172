-- ===== src/Check/Tiers.antt =====
-- check.go: the three tiers that can allow a call, against the list of those that are present.
use go_txnpure.Base.{
  ◌==◌, if◌then◌else◌, ==_iff, Bool-cases, Option-cases, ℤ, inc64, nat_eq, Bytes, bytes_Eq, lookup,
  ℕ, ◌≡◌, refl, ap, ◌∙◌, ◌⊎◌, inl, inr, Bool, true, false, Option, none, some, List, [], ◌∷◌, ◌++◌,
}
use go_txnpure.Allow.Counts.{covers_calls}
use go_txnpure.Allow.{bump_call, note_declared}
use go_txnpure.Allowlist.{find_entry}
use go_txnpure.Check.{CheckConfig}
use go_txnpure.Identity.{Op, ViolationKey, key_Eq}
use go_txnpure.State.{AllowMark, Scope, Allowlist, AllowlistEntry, World, put_scope}

-- A tier that is present declares its counts, and the number of this call among those it counts.
abbrev pub Tier : Type 0
Tier = List ℤ × ℤ

abbrev pub call_tier : CheckConfig → ℤ → List Tier
call_tier cfg k = if cfg.allowed then (cfg.allow_counts, k) ∷ [] else []

abbrev pub region_tier : (ℕ → AllowMark) → Option ℕ → List Tier
region_tier mark_at none = []
region_tier mark_at (some m) = ((mark_at m).counts, inc64 (mark_at m).n) ∷ []

abbrev pub entry_tier : Option (ViolationKey × AllowlistEntry) → ℤ → List Tier
entry_tier none k = []
entry_tier (some (key, e)) k = (e.counts, k) ∷ []

abbrev pub list_tier : Option Allowlist → Bytes → Op → ℤ → List Tier
list_tier none scope op k = []
list_tier (some a) scope op k = entry_tier (find_entry a scope op) k

abbrev pub tiers : World → ℕ → Option ℕ → Op → ℤ → CheckConfig → List Tier
tiers w i mark op k cfg =
    call_tier cfg k
    ++ (region_tier w.mark_at mark ++ list_tier w.allowlist (w.scope_at i).name op k)

abbrev pub allows : Tier → Bool
allows (counts, n) = covers_calls counts n

abbrev pub all_counts : List Tier → List ℤ
all_counts [] = []
all_counts ((counts, n) ∷ ts) = counts ++ all_counts ts

-- What the tiers leave as it is: the names and attributes of scopes, and the reporters.
pub record Looks (w w' : World) : Type 0 where
  pub names : (j : ℕ) → (w'.scope_at j).name ≡ (w.scope_at j).name
  pub attrs : (j : ℕ) → (w'.scope_at j).attrs ≡ (w.scope_at j).attrs
  pub reporters : w'.reporters ≡ w.reporters

pub Looks-refl : (w : World) → Looks w w
Looks-refl w = record { names = λ j. refl; attrs = λ j. refl; reporters = refl }

pub Looks-trans : {u v w : World} → Looks u v → Looks v w → Looks u w
Looks-trans p q = record {
  names = λ j. q.names j ∙ p.names j;
  attrs = λ j. q.attrs j ∙ p.attrs j;
  reporters = q.reporters ∙ p.reporters;
}

put_scope-field {ℓ} :
    {A : Type ℓ} (f : Scope → A) (i : ℕ) (s : Scope) (w : World)
    → f s ≡ f (w.scope_at i)
    → (j : ℕ) → f ((put_scope i s w).scope_at j) ≡ f (w.scope_at j)
put_scope-field f i s w h j = at_same (Bool-cases (i == j))
  where
    at_same :
        ((i == j) ≡ true) ⊎ ((i == j) ≡ false)
        → f (if i == j then s else w.scope_at j) ≡ f (w.scope_at j)
    at_same (inl hit) = rw hit (h ∙ ap (λ k. f (w.scope_at k)) ((==_iff i j).0 hit))
    at_same (inr miss) = rw miss

Looks-put_scope :
    (i : ℕ) (s : Scope) (w : World)
    → s.name ≡ (w.scope_at i).name
    → s.attrs ≡ (w.scope_at i).attrs
    → Looks w (put_scope i s w)
Looks-put_scope i s w named attributed = record {
  names = put_scope-field (λ s. s.name) i s w named;
  attrs = put_scope-field (λ s. s.attrs) i s w attributed;
  reporters = refl;
}

-- Declaring counts changes nothing that a later tier reads.
pub record Notes (w w' : World) : Type 0 where
  pub looks : Looks w w'
  pub marks : w'.mark_at ≡ w.mark_at
  pub list : w'.allowlist ≡ w.allowlist

pub Notes-refl : (w : World) → Notes w w
Notes-refl w = record { looks = Looks-refl w; marks = refl; list = refl }

pub Notes-put_scope :
    (i : ℕ) (s : Scope) (w : World)
    → s.name ≡ (w.scope_at i).name
    → s.attrs ≡ (w.scope_at i).attrs
    → Notes w (put_scope i s w)
Notes-put_scope i s w named attributed = record {
  looks = Looks-put_scope i s w named attributed;
  marks = refl;
  list = refl;
}

pub Notes-bump_call : (i : ℕ) (key : ViolationKey) (w : World) → Notes w (bump_call i key w).1
unfolding bump_call
Notes-bump_call i key w = Notes-put_scope i _ w refl refl

pub Notes-note_declared :
    (i : ℕ) (key : ViolationKey) (counts : List ℤ) (reason : Bytes) (w : World)
    → Notes w (note_declared i key counts reason w)
unfolding note_declared
Notes-note_declared i key [] reason w = Notes-refl w
Notes-note_declared i key (c ∷ counts) reason w =
    elim (Option-cases (lookup key (w.scope_at i).calls)) [
      | inl e ↦ rw (e, note_declared) (Notes-refl w)
      | inr (a, e) ↦ rw (e, note_declared) (Notes-put_scope i _ w refl refl)
    ]
