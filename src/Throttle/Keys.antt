-- ===== src/Throttle/Keys.antt =====
-- throttle.go: the reports that pass, per key and over time.
use go_txnpure.Base.{
  if◌then◌else◌, ℤ, pos, leb_ℤ, inc64, nat_eq, Bytes, bytes_eq, bytes_eq_iff, bytes_Eq, lookup,
  insert, lookup-insert, ℕ, ◌≡◌, refl, ap, ◌∙◌, Bool, true, false, Option, none, some, List, [],
  ◌∷◌,
}
use go_txnpure.Throttle.{
  ThrottleState, Windows, duration_sub, admit_known, admit_new, admit_at, admit, pass,
}

-- A report is its key and the time of the clock at which it comes.
abbrev pub Arrival : Type 0
Arrival = Bytes × ℕ

-- Whether each of the reports passes, in a map without a cap.
abbrev pub pass_all : ℤ → Windows → List Arrival → List Bool × Windows
pass_all interval m [] = ([], m)
pass_all interval m ((key, now) ∷ arrivals) =
    let (go, m') = pass interval now m key 0 in
    let (rest, after) = pass_all interval m' arrivals in (go ∷ rest, after)

-- The arrivals of one key, and whether they passed.
abbrev pub times_of : Bytes → List Arrival → List ℕ
times_of k [] = []
times_of k ((key, now) ∷ arrivals) =
    if bytes_eq key k then now ∷ times_of k arrivals else times_of k arrivals

abbrev pub flags_of : Bytes → List Arrival → List Bool → List Bool
flags_of k [] flags = []
flags_of k (a ∷ arrivals) [] = []
flags_of k ((key, now) ∷ arrivals) (go ∷ flags) =
    if bytes_eq key k then go ∷ flags_of k arrivals flags else flags_of k arrivals flags

-- One key by itself: the first report opens a window; a later one passes if the interval is over
-- since the last that passed, and is counted otherwise.
abbrev pub alone_step : ℤ → ℕ → Option ThrottleState → Bool × ThrottleState
alone_step interval now none = (true, record { last_forwarded = now; suppressed = pos 0 })
alone_step interval now (some st) =
    if leb_ℤ interval (duration_sub now st.last_forwarded)
    then (true, record st { last_forwarded = now })
    else (false, record st { suppressed = inc64 st.suppressed })

abbrev pub alone : ℤ → Option ThrottleState → List ℕ → List Bool × Option ThrottleState
alone interval st [] = ([], st)
alone interval st (now ∷ times) =
    let (go, st') = alone_step interval now st in
    let (rest, after) = alone interval (some st') times in (go ∷ rest, after)

abbrev pub noted : Bytes → Windows → Bool × ThrottleState → Bool × Windows
noted key m (go, st) = (go, insert key st m)

-- One report against the window of its key.
pub pass-alone_step :
    (interval : ℤ) (now : ℕ) (m : Windows) (key : Bytes)
    → leb_ℤ interval (pos 0) ≡ false
    → pass interval now m key 0 ≡ noted key m (alone_step interval now (lookup key m))
unfolding pass admit admit_known admit_new
pass-alone_step interval now m key h = rw h (at (lookup key m))
  where
    at :
        (o : Option ThrottleState)
        → admit_at interval now m key 0 o ≡ noted key m (alone_step interval now o)
    at none = refl
    at (some st) = known (leb_ℤ interval (duration_sub now st.last_forwarded))
      where
        known :
            (b : Bool)
            → (if b
                then (true, insert key (record st { last_forwarded = now }) m)
                else (false, insert key (record st { suppressed = inc64 st.suppressed }) m))
              ≡ noted key m (
                  if b
                  then (true, record st { last_forwarded = now })
                  else (false, record st { suppressed = inc64 st.suppressed }))
        known true = refl
        known false = refl

-- In one map, each key is throttled as if it were by itself: whether its reports pass and how its
-- window ends depends on its own reports and on nothing else, if the interval is positive.
pub pass_all-alone :
    (interval : ℤ) (m : Windows) (arrivals : List Arrival) (k : Bytes)
    → leb_ℤ interval (pos 0) ≡ false
    → (let (flags, after) = pass_all interval m arrivals in
        (flags_of k arrivals flags, lookup k after))
      ≡ alone interval (lookup k m) (times_of k arrivals)
pass_all-alone interval m [] k h = refl
pass_all-alone interval m ((key, now) ∷ arrivals) k h =
    rw (pass-alone_step interval now m key h)
      (at (bytes_eq key k) refl (pass_all-alone interval m' arrivals k h))
  where
    st : Bool × ThrottleState
    st = alone_step interval now (lookup key m)

    m' : Windows
    m' = insert key st.1 m

    at :
        (b : Bool)
        → bytes_eq key k ≡ b
        → (let (flags, after) = pass_all interval m' arrivals in
            (flags_of k arrivals flags, lookup k after))
          ≡ alone interval (lookup k m') (times_of k arrivals)
        → (let (flags, after) = pass_all interval m' arrivals in
            (
              if b then st.0 ∷ flags_of k arrivals flags else flags_of k arrivals flags,
              lookup k after,
            ))
          ≡ alone interval
              (lookup k m)
              (if b then now ∷ times_of k arrivals else times_of k arrivals)
    at true e rest =
        let times = times_of k arrivals in
        ap (λ (r : List Bool × Option ThrottleState). (st.0 ∷ r.0, r.1)) rest
        ∙ ap
            (λ (o : Option ThrottleState).
              (st.0 ∷ (alone interval o times).0, (alone interval o times).1))
            (lookup-insert key k st.1 m ∙ rw e refl)
        ∙ ap
            (λ (x : Bytes).
              let s = alone_step interval now (lookup x m) in
              (s.0 ∷ (alone interval (some s.1) times).0, (alone interval (some s.1) times).1))
            ((bytes_eq_iff key k).0 e)
    at false e rest =
        rest
        ∙ ap (λ o. alone interval o (times_of k arrivals)) (lookup-insert key k st.1 m ∙ rw e refl)
