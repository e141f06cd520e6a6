-- ===== src/PageLocks/Release.antt =====
-- server/internal/core/storage/page_lock.go: UnlockTable undoes LockTable.
use mathlib.Core.Option.{some_inj}
use pro_labs.Common.{
  ℕ, ◌<◌, ◌≡◌, refl, sym, ap, ◌∙◌, arith, Bool, true, false, not, Option, none, some, List, [], ◌∷◌,
  ◌&&◌, ◌||◌, ◌==◌, ==_iff, and_iff, if◌then◌else◌, if-cases, Bool-cases, Option-cases, inl, inr,
  All,
}
use pro_labs.Bitmap.Slots.{Ascending, among}
use pro_labs.PageLocks.{
  PageId, RwMutex, PageLockManager, set_stripe, lock, unlock, stripes_of, lock_all, unlock_all,
  lock_table, unlock_table,
}
use pro_labs.PageLocks.Stripes.{stripes_of_lem}

abbrev free : RwMutex
free = record { readers = 0; writer = false }

abbrev taken : RwMutex
taken = record { readers = 0; writer = true }

-- A mutex that is taken was free before.
lock_lem :
    (s : ℕ) (locks next : PageLockManager)
    → lock s locks ≡ some next
    → (locks s ≡ free) × (next ≡ set_stripe s taken locks)
lock_lem s locks next e = elim (Bool-cases (not (locks s).writer && ((locks s).readers == 0))) [
  | inl opened ↦
      let (w, r) = (and_iff (not (locks s).writer) ((locks s).readers == 0)).0 opened in
      let no_reader = (==_iff (locks s).readers 0).0 r in
      let no_writer : (locks s).writer ≡ false = elim (Bool-cases (locks s).writer) [
        | inl k ↦ absurd (cc (sym (ap not k) ∙ w))
        | inr k ↦ k
      ] in
      (
        λ i. record { readers = no_reader i; writer = no_writer i },
        sym (
            some_inj.0 (
              sym (ap (λ (b : Bool). if b then some (set_stripe s taken locks) else none) opened)
              ∙ e)),
      )
  | inr shut ↦
      absurd
        (cc (sym (ap (λ (b : Bool). if b then some (set_stripe s taken locks) else none) shut) ∙ e))
]

-- After the loop the stripes are taken, and they were free.
lock_all_lem :
    (stripes : List ℕ) (locks next : PageLockManager)
    → lock_all stripes locks ≡ some next
    → (x : ℕ)
    → (next x ≡ (if among x stripes then taken else locks x))
      × ((if among x stripes then free else locks x) ≡ locks x)
unfolding lock_all
lock_all_lem [] locks next e x = (ap (λ (l : PageLockManager). l x) (sym (some_inj.0 e)), refl)
lock_all_lem (s ∷ stripes) locks next e x = elim (Option-cases (lock s locks)) [
  | inl waits ↦ absurd (
      cc (
        sym (
          ap (λ (o : Option PageLockManager). elim o [ none ↦ none | some m ↦ lock_all stripes m ])
            waits)
        ∙ e))
  | inr (m, locked) ↦
      let k : lock_all stripes m ≡ some next =
        sym (
          ap (λ (o : Option PageLockManager). elim o [ none ↦ none | some m ↦ lock_all stripes m ])
            locked)
        ∙ e in
      let (was, set) = lock_lem s locks m locked in
      let (now, before) = lock_all_lem stripes m next k x in
      let here : m x ≡ (if s == x then taken else locks x) =
        ap (λ (l : PageLockManager). l x) set in
      elim (Bool-cases (s == x)) [
        | inl same ↦
            let at_x : locks x ≡ free = ap locks (sym ((==_iff s x).0 same)) ∙ was in
            let m_x : m x ≡ taken = here ∙ ap (λ (b : Bool). if b then taken else locks x) same in
            (
              now
                  ∙ if-cases (λ (y : RwMutex). y ≡ taken) (among x stripes) (λ b. refl) (λ b. m_x)
                  ∙ ap (λ (b : Bool). if b || among x stripes then taken else locks x) (sym same),
              ap (λ (b : Bool). if b || among x stripes then free else locks x) same ∙ sym at_x,
            )
        | inr other ↦
            let m_x : m x ≡ locks x =
              here ∙ ap (λ (b : Bool). if b then taken else locks x) other in
            (
              now
                  ∙ ap (λ (y : RwMutex). if among x stripes then taken else y) m_x
                  ∙ ap (λ (b : Bool). if b || among x stripes then taken else locks x) (sym other),
              ap (λ (b : Bool). if b || among x stripes then free else locks x) other
                  ∙ ap (λ (y : RwMutex). if among x stripes then free else y) (sym m_x)
                  ∙ before
                  ∙ m_x,
            )
      ]
]

below_none : (x : ℕ) (ys : List ℕ) → All (λ z. x < z) ys → among x ys ≡ false
below_none x [] h = refl
below_none x (y ∷ ys) h = ground (arith, h.0, below_none x ys h.1)

-- Stripes that are taken, each once, are released.
unlock_all_lem :
    (stripes : List ℕ) (locks : PageLockManager)
    → Ascending stripes
    → ((x : ℕ) → among x stripes ≡ true → locks x ≡ taken)
    → (next : PageLockManager) × (unlock_all stripes locks ≡ some next)
      × ((x : ℕ) → next x ≡ (if among x stripes then free else locks x))
unfolding unlock_all
unlock_all_lem [] locks a h = (locks, refl, λ x. refl)
unlock_all_lem (s ∷ stripes) locks a h =
    let at_s : locks s ≡ taken = h s (ground arith) in
    let m : PageLockManager = set_stripe s free locks in
    let release : unlock s locks ≡ some m =
      ap
        (λ (r : RwMutex).
          if r.writer
          then some (set_stripe s (record { readers = r.readers; writer = false }) locks)
          else none)
        at_s in
    let apart = below_none s stripes a.0 in
    let (next, e, k) = unlock_all_lem stripes m a.1 (λ x b. elim (Bool-cases (s == x)) [
      | inl same ↦
          absurd (cc (b, ap (λ (y : ℕ). among y stripes) (sym ((==_iff s x).0 same)), apart))
      | inr other ↦
          ap (λ (c : Bool). if c then free else locks x) other ∙ h x (ground (arith, other, b))
    ]) in
    (
      next,
      ap (λ (o : Option PageLockManager). elim o [ none ↦ none | some l ↦ unlock_all stripes l ])
            release
          ∙ e,
      λ x. elim (Bool-cases (s == x)) [
        | inl same ↦
            k x
            ∙ if-cases (λ (y : RwMutex). y ≡ free) (among x stripes) (λ b. refl)
                (λ b. ap (λ (c : Bool). if c then free else locks x) same)
            ∙ ap (λ (b : Bool). if b || among x stripes then free else locks x) (sym same)
        | inr other ↦
            k x
            ∙ ap (λ (y : RwMutex). if among x stripes then free else y)
                (ap (λ (c : Bool). if c then free else locks x) other)
            ∙ ap (λ (b : Bool). if b || among x stripes then free else locks x) (sym other)
      ],
    )

freed :
    (b : Bool) (m : RwMutex)
    → (if b then free else m) ≡ m
    → (if b then free else (if b then taken else m)) ≡ m
freed true m e = e
freed false m e = refl

-- UnlockTable after LockTable of the same pages succeeds, and leaves every mutex as it was, also if several
-- pages have one stripe.
pub unlock_table-lock_table :
    (pids : List PageId) (locks next : PageLockManager)
    → lock_table pids locks ≡ some next
    → (last : PageLockManager) × (unlock_table pids next ≡ some last) × ((x : ℕ) → last x ≡ locks x)
unlock_table-lock_table pids locks next e =
    let stripes = stripes_of pids in
    let state = lock_all_lem stripes locks next e in
    let (last, k, same) =
      unlock_all_lem stripes next (stripes_of_lem pids).0
        (λ x b. (state x).0 ∙ ap (λ (c : Bool). if c then taken else locks x) b) in
    (
      last,
      k,
      λ x.
          same x
          ∙ ap (λ (y : RwMutex). if among x stripes then free else y) (state x).0
          ∙ freed (among x stripes) (locks x) (state x).1,
    )
