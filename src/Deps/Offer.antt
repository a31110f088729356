-- ===== src/Deps/Offer.antt =====
-- What marking and queueing the successors of one node does to the flags and the queue.
use libthe_seed.Prelude.{
  get_or-set, ℕ, zero, suc, ◌+◌, ◌≡◌, ◌<◌, ◌⊎◌, ◌↔◌, inl, inr, refl, List, [], ◌∷◌, length,
  length-append, length-set, get_or, set, ◌==◌, if◌then◌else◌, Bool-cases, All, arith,
}
use libthe_seed.Deps.Credits.{Walk, offer, offer_all}
use libthe_seed.Deps.Reach.{Has, Has-append, Nodup, Nodup-concat}

-- The flags without this stamp.
abbrev pub unmarked : ℕ → List ℕ → ℕ
unmarked stamp [] = 0
unmarked stamp (s ∷ rest) = (if s == stamp then 0 else 1) + unmarked stamp rest

abbrev pub Marked : ℕ → List ℕ → ℕ → Type 0
Marked stamp seen v = get_or seen v 0 ≡ stamp

unmarked-set :
    (stamp : ℕ) (seen : List ℕ) (i : ℕ)
    → i < length seen
    → ¬ Marked stamp seen i
    → suc (unmarked stamp (set seen i stamp)) ≡ unmarked stamp seen
unmarked-set stamp [] i h new = absurd (omega arith)
unmarked-set stamp (s ∷ rest) zero h new = ground arith
unmarked-set stamp (s ∷ rest) (suc i) h new = ground (arith, unmarked-set stamp rest i)

module _ (stamp : ℕ) where
  -- `t` comes from `s` by marking the nodes of which `New` holds.
  pub record Offers (s t : Walk) (New : ℕ → Type 0) : Type 0 where
    pub size : length t.seen ≡ length s.seen
    pub work : unmarked stamp t.seen + length t.pending ≡ unmarked stamp s.seen + length s.pending
    pub marked : (v : ℕ) → Marked stamp t.seen v ↔ (Marked stamp s.seen v ⊎ New v)
    pub queued :
        (v : ℕ)
        → Has v t.pending ↔ (Has v s.pending ⊎ (Marked stamp t.seen v × ¬ Marked stamp s.seen v))
    pub nodup :
        Nodup s.pending → ((v : ℕ) → Has v s.pending → Marked stamp s.seen v) → Nodup t.pending
    pub kept : (v : ℕ) → (get_or t.seen v 0 ≡ get_or s.seen v 0) ⊎ Marked stamp t.seen v

  offer-Offers :
      (w : Walk) (next : ℕ) → next < length w.seen → Offers w (offer stamp w next) (λ v. next ≡ v)
  unfolding offer
  offer-Offers w next h = elim (Bool-cases (get_or w.seen next 0 == stamp)) [
    | inl old ↦ rw old (record {
      size = refl;
      work = refl;
      marked = λ v. (inl, λ c. elim c [ inl m ↦ m | inr e ↦ ground (arith, e, old) ]);
      queued = λ v. (inl, λ c. elim c [ inl q ↦ q | inr (m, n) ↦ absurd (n m) ]);
      nodup = λ d q. d;
      kept = λ v. inl refl;
    })
    | inr new ↦ rw new (record {
      size = length-set w.seen next stamp;
      work =
          let fresh : ¬ Marked stamp w.seen next = ground arith in
          omega
            (arith, unmarked-set stamp w.seen next h fresh, length-append w.pending (next ∷ []));
      marked = λ v. ground (arith, get_or-set w.seen next v stamp 0 h);
      queued = λ v.
          ground (arith, get_or-set w.seen next v stamp 0 h, Has-append v w.pending (next ∷ []));
      nodup = λ d q. Nodup-concat w.pending next d (λ m. ground (arith, q next m));
      kept = λ v. ground (arith, get_or-set w.seen next v stamp 0 h);
    })
  ]

  -- All of `nexts` are marked, and those that were not are queued once.
  pub offer_all-Offers :
      (w : Walk) (nexts : List ℕ)
      → All (λ v. v < length w.seen) nexts
      → Offers w (offer_all stamp w nexts) (λ v. Has v nexts)
  unfolding offer_all
  offer_all-Offers w [] h = record {
    size = refl;
    work = refl;
    marked = λ v. (inl, λ c. elim c [ inl m ↦ m | inr n ↦ absurd n ]);
    queued = λ v. (inl, λ c. elim c [ inl q ↦ q | inr (m, n) ↦ absurd (n m) ]);
    nodup = λ d q. d;
    kept = λ v. inl refl;
  }
  offer_all-Offers w (next ∷ rest) h =
      let a = offer-Offers w next h.0 in
      let b = offer_all-Offers (offer stamp w next) rest (rw a.size h.1) in
      record {
        size = omega (arith, a.size, b.size);
        work = omega (arith, a.work, b.work);
        marked = λ v. ground (arith, a.marked v, b.marked v);
        queued = λ v. ground (arith, a.queued v, b.queued v, a.marked v, b.marked v);
        nodup =
            λ d q. b.nodup (a.nodup d q) (λ v p. ground (arith, p, a.queued v, a.marked v, q v));
        kept = λ v. ground (arith, a.kept v, b.kept v, b.marked v);
      }
