-- ===== src/Shared/Counts.antt =====
-- What the counts of Sp.c come to.
use workqueue.Chains.Store.{put_same, put}
use workqueue.Prelude.{
  Option-cases, ◌-◌, ◌&&◌, ◌||◌, not, if◌then◌else◌, false, arith, ◌==◌, Bool-cases, true, inr,
  refl, none, some, inl, ◌⊎◌, ◌≡◌, List, Bool, ℕ, zero, suc, [], ◌∷◌,
}
use workqueue.Shared.Calls.{
  find_block, count_down, link_block, skip, take_out, sp_unused, sp_using, sp_ref, sp_unref,
  sp_malloc, Gsp,
}
use workqueue.Platform.Run.{and_then, Run, done, ◌>>◌, pure, Cmd, waiting, fault}

-- A call of a program that uses shared pointers.
pub data SpCall : Type 0 where
  using : Bool → SpCall
  unused : SpCall
  malloc : ℕ → ℕ → ℕ → SpCall
  refer_to : ℕ → SpCall
  unref : ℕ → SpCall

module _ (fuel header : ℕ) where
  unfoldable pub call : SpCall → Cmd Gsp (Unit {0})
  unfolding sp_malloc sp_ref sp_unref sp_using sp_unused
  call (using opened) s = done tt (sp_using opened s)
  call unused s = done tt (sp_unused s)
  call (malloc size refer block) s = (sp_malloc fuel header size refer block >> pure tt) s
  call (refer_to spmem) s = (sp_ref fuel header spmem >> pure tt) s
  call (unref spmem) s = sp_unref fuel header spmem s

  unfoldable pub calls : List SpCall → Cmd Gsp (Unit {0})
  unfolding call
  calls [] = pure tt
  calls (c ∷ cs) = call c >> calls cs

  unfoldable pub unrefs : ℕ → ℕ → Cmd Gsp (Unit {0})
  unfolding sp_unref
  unrefs zero spmem = pure tt
  unrefs (suc n) spmem = sp_unref fuel header spmem >> unrefs n spmem

-- The list has no second block.
abbrev pub AtMostOne : Gsp → Type 0
AtMostOne s = (s.link ≡ 0) ⊎ (s.next_sp s.link ≡ 0)

-- What is left by a call that returns.
abbrev pub Leaves : {A : Type 0} → (Gsp → Type 0) → Run Gsp A → Type 0
Leaves Q (done a s) = Q s
Leaves Q (waiting s) = Unit
Leaves Q fault = Unit

Leaves-bind :
    {A B : Type 0} (Q : Gsp → Type 0) (r : Run Gsp A) (k : A → Cmd Gsp B)
    → Leaves Q r
    → ((a : A) (s : Gsp) → Q s → Leaves Q (k a s))
    → Leaves Q (and_then r k)
Leaves-bind Q (done a s) k h f = f a s h
Leaves-bind Q (waiting s) k h f = tt
Leaves-bind Q fault k h f = tt

skip_end :
    (fuel : ℕ) (next : ℕ → ℕ) (p : ℕ)
    → next p ≡ 0
    → (skip fuel next p ≡ none) ⊎ (skip fuel next p ≡ some 0)
unfolding skip
skip_end zero next p e = inl refl
skip_end (suc zero) next p e = elim (Bool-cases (p == 0)) [
  | inl null ↦ inr (rw null refl)
  | inr block ↦ let ends : (next p == 0) ≡ true = ground (arith, e) in inl (rw (block, ends) refl)
]
skip_end (suc (suc fuel)) next p e = elim (Bool-cases (p == 0)) [
  | inl null ↦ inr (rw null refl)
  | inr block ↦ let ends : (next p == 0) ≡ true = ground (arith, e) in inr (rw (block, ends) refl)
]

take_out-null :
    (fuel sp_ptr prev p : ℕ) (s : Gsp)
    → p ≡ 0
    → AtMostOne s
    → Leaves AtMostOne (take_out fuel sp_ptr prev p s)
unfolding take_out
take_out-null zero sp_ptr prev p s e h = tt
take_out-null (suc fuel) sp_ptr prev p s e h =
    let null : (p == 0) ≡ true = ground (arith, e) in rw null h

take_out-AtMostOne :
    (fuel sp_ptr : ℕ) (s : Gsp) → AtMostOne s → Leaves AtMostOne (take_out fuel sp_ptr 0 s.link s)
unfolding take_out
take_out-AtMostOne zero sp_ptr s h = tt
take_out-AtMostOne (suc fuel) sp_ptr s h = elim (Bool-cases (s.link == 0)) [
  | inl null ↦ rw null h
  | inr held ↦
      let ends : s.next_sp s.link ≡ 0 = elim h [
        | inl z ↦ absurd (ground (arith, z, held))
        | inr z ↦ z
      ] in
      elim (Bool-cases (s.link == sp_ptr)) [
        | inl found ↦ rw (held, found) (inl ends)
        | inr other ↦
            rw (held, other) (take_out-null fuel sp_ptr s.link (s.next_sp s.link) s ends h)
      ]
]

link_block-AtMostOne :
    (fuel block : ℕ) (s : Gsp)
    → s.next_sp block ≡ 0
    → AtMostOne s
    → Leaves AtMostOne (link_block fuel block s)
unfolding link_block
link_block-AtMostOne fuel block s e h = elim (Bool-cases (s.link == 0)) [
  | inl free ↦ rw free (inr e)
  | inr held ↦
      let ends : s.next_sp s.link ≡ 0 = elim h [
        | inl z ↦ absurd (ground (arith, z, held))
        | inr z ↦ z
      ] in
      elim (skip_end fuel s.next_sp s.link ends) [
        | inl spent ↦ rw (held, spent) tt
        | inr over ↦ rw (held, over) tt
      ]
]

count_down-AtMostOne : (sp_ptr : ℕ) (s : Gsp) → AtMostOne s → AtMostOne (count_down sp_ptr s)
unfolding count_down
count_down-AtMostOne sp_ptr s h = elim (Bool-cases (s.ref sp_ptr == 0)) [
  | inl e ↦ rw e h
  | inr e ↦ rw e h
]

counted :
    (found : Bool) (sp_ptr : ℕ) (t : Gsp)
    → AtMostOne t
    → AtMostOne (if found then count_down sp_ptr t else t)
counted true sp_ptr t h = count_down-AtMostOne sp_ptr t h
counted false sp_ptr t h = h

pub cleared : (next : ℕ → ℕ) (p block : ℕ) → next p ≡ 0 → put next block 0 p ≡ 0
cleared next p block e = elim (Bool-cases (p == block)) [
  | inl same ↦ rw same refl
  | inr other ↦ rw other e
]

sp_malloc-AtMostOne :
    (fuel header size refer block : ℕ) (s : Gsp)
    → AtMostOne s
    → Leaves AtMostOne (sp_malloc fuel header size refer block s)
unfolding sp_malloc
sp_malloc-AtMostOne fuel header size refer block s h =
    elim (Bool-cases (not s.use_it || size == 0 || refer == 0)) [
      | inl bad ↦ rw bad h
      | inr good ↦ elim (Bool-cases (block == 0)) [
        | inl refused ↦ rw (good, refused) h
        | inr granted ↦
            rw (good, granted)
              (Leaves-bind AtMostOne _ _
                (link_block-AtMostOne fuel block _ (put_same s.next_sp block 0)
                  (elim h [ inl z ↦ inl z | inr z ↦ inr (cleared s.next_sp s.link block z) ]))
                (λ a t k. k))
      ]
    ]

sp_ref-AtMostOne :
    (fuel header spmem : ℕ) (s : Gsp) → AtMostOne s → Leaves AtMostOne (sp_ref fuel header spmem s)
unfolding sp_ref
sp_ref-AtMostOne fuel header spmem s h = elim (Bool-cases (not s.use_it || spmem == 0)) [
  | inl bad ↦ rw bad h
  | inr good ↦ elim (Option-cases (find_block fuel s.next_sp (spmem - header) s.link)) [
    | inl spent ↦ rw (good, spent) tt
    | inr (b, found) ↦ elim (Bool-cases (b == 0)) [
      | inl null ↦ rw (good, found, null) h
      | inr block ↦ rw (good, found, block) h
    ]
  ]
]

sp_unref-AtMostOne :
    (fuel header spmem : ℕ) (s : Gsp)
    → AtMostOne s
    → Leaves AtMostOne (sp_unref fuel header spmem s)
unfolding sp_unref
sp_unref-AtMostOne fuel header spmem s h = elim (Bool-cases (not s.use_it || spmem == 0)) [
  | inl bad ↦ rw bad h
  | inr good ↦ rw good (
      Leaves-bind AtMostOne (take_out fuel (spmem - header) 0 s.link s) _
        (take_out-AtMostOne fuel (spmem - header) s h)
        (λ found t k. counted found (spmem - header) t k))
]

call-AtMostOne :
    (fuel header : ℕ) (c : SpCall) (s : Gsp) → AtMostOne s → Leaves AtMostOne (call fuel header c s)
unfolding call sp_using sp_unused
call-AtMostOne fuel header (using opened) s h = elim (Bool-cases (not s.use_it && opened)) [
  | inl e ↦ rw e (inl refl)
  | inr e ↦ rw e h
]
call-AtMostOne fuel header unused s h = elim (Bool-cases s.use_it) [
  | inl e ↦ rw e (inl refl)
  | inr e ↦ rw e h
]
call-AtMostOne fuel header (malloc size refer block) s h =
    Leaves-bind AtMostOne _ _ (sp_malloc-AtMostOne fuel header size refer block s h) (λ a t k. k)
call-AtMostOne fuel header (refer_to spmem) s h =
    Leaves-bind AtMostOne _ _ (sp_ref-AtMostOne fuel header spmem s h) (λ a t k. k)
call-AtMostOne fuel header (unref spmem) s h = sp_unref-AtMostOne fuel header spmem s h

pub calls-AtMostOne :
    (fuel header : ℕ) (cs : List SpCall) (s : Gsp)
    → AtMostOne s
    → Leaves AtMostOne (calls fuel header cs s)
unfolding calls
calls-AtMostOne fuel header [] s h = h
calls-AtMostOne fuel header (c ∷ cs) s h =
    Leaves-bind AtMostOne _ _ (call-AtMostOne fuel header c s h)
      (λ a t k. calls-AtMostOne fuel header cs t k)
