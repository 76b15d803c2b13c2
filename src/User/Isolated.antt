-- ===== src/User/Isolated.antt =====
-- What setup leaves: pages of which no two overlap in memory.
use axiom_os.Base.{
  Bool-cases, Option-cases, some-injective, ℕ, ◌≡◌, refl, sym, ap, subst, ◌∙◌, ◌≢◌, ◌⊎◌, inl, inr,
  Bool, none, some, List, [], ◌∷◌, ◌++◌, arith,
}
use axiom_os.Base.Distinct.{Pairwise}
use axiom_os.ElfLoader.{ElfError, Mapping, Space, load}
use axiom_os.ElfLoader.Isolated.{Apart, taken, IsIsolated, moved, load-IsIsolated}
use axiom_os.User.{map_page, load_program, setup, code_page, stack_page, user_code_virt}

none-some {ℓ} : {A : Type ℓ} {x : A} → none ≢ some x
none-some e = ground arith

code_page-frame : (f : ℕ) → (code_page f).frame ≡ f
unfolding code_page
code_page-frame f = refl

stack_page-frame : (f : ℕ) → (stack_page f).frame ≡ f
unfolding stack_page
stack_page-frame f = refl

-- What load_program leaves: the pages of the image and its entry point, or, when the image is refused,
-- the pages it got so far, the hand-coded program's page and its address.
abbrev pub Loaded : (List Mapping → ℕ → ℕ → Bool) → List ℕ → Space → ℕ → List Mapping → Type 0
Loaded accepts elf_program s entry ms =
    (((load accepts elf_program s).0 ≡ inr entry) × (ms ≡ (load accepts elf_program s).1.mappings))
    ⊎ ((error : ElfError) × (f : ℕ) × ((load accepts elf_program s).0 ≡ inl error)
        × (ms ≡ (load accepts elf_program s).1.mappings ++ (code_page f ∷ []))
        × (entry ≡ user_code_virt))

loaded-cases {ℓ κ} :
    {A : Type ℓ} {B : Type κ} (r : A ⊎ B) → ((a : A) × (r ≡ inl a)) ⊎ ((b : B) × (r ≡ inr b))
loaded-cases (inl a) = inl (a, refl)
loaded-cases (inr b) = inr (b, refl)

module _ (earlier : List ℕ) where
  map_page-adds :
      (accepts : List Mapping → ℕ → ℕ → Bool) (new_page : ℕ → Mapping) (ms : List Mapping)
      (fs : List ℕ) (t : Space)
      → ((f : ℕ) → (new_page f).frame ≡ f)
      → Pairwise Apart (taken earlier ms ++ fs)
      → map_page accepts new_page (record { mappings = ms; frames = fs }) ≡ some t
      → (IsIsolated earlier) t × ((f : ℕ) × (t.mappings ≡ ms ++ (new_page f ∷ [])))
  unfolding map_page
  map_page-adds accepts new_page ms [] t own h e = absurd (ground arith)
  map_page-adds accepts new_page ms (f ∷ fs) t own h e =
      let u : Space = record { mappings = ms ++ (new_page f ∷ []); frames = fs } in
      elim (Bool-cases (accepts ms (new_page f).page f)) [
        | inr refused ↦ absurd (ground arith)
        | inl agreed ↦
            let same : u ≡ t = some-injective (sym (rw agreed refl) ∙ e) in
            let kept : (IsIsolated earlier) u =
              subst (Pairwise Apart)
                (sym (
                  moved earlier ms (new_page f) fs
                  ∙ ap (λ g. taken earlier ms ++ (g ∷ fs)) (own f)))
                h in
            (subst (IsIsolated earlier) same kept, (f, ap (λ (v : Space). v.mappings) (sym same)))
      ]

  load_program-Loaded :
      (accepts : List Mapping → ℕ → ℕ → Bool) (elf_program : List ℕ) (s : Space) (entry : ℕ)
      (t : Space)
      → (IsIsolated earlier) s
      → load_program accepts elf_program s ≡ some (entry, t)
      → (IsIsolated earlier) t × Loaded accepts elf_program s entry t.mappings
  unfolding load_program
  load_program-Loaded accepts elf_program s entry t h e =
      let r = load accepts elf_program s in
      let kept = load-IsIsolated earlier accepts elf_program s h in
      elim (loaded-cases r.0) [
        | inr ok ↦
            let same : (ok.0, r.1) ≡ (entry, t) =
              some-injective (sym (rw (load_program, ok.1) refl) ∙ e) in
            (
              subst (IsIsolated earlier) (ap (λ (x : ℕ × Space). x.1) same) kept,
              inl (
                ok.1 ∙ ap (λ (x : ℕ × Space). inr x.0) same,
                ap (λ (x : ℕ × Space). x.1.mappings) (sym same),
              ),
            )
        | inl failed ↦ elim (Option-cases (map_page accepts code_page r.1)) [
          | inl missing ↦ absurd (none-some (sym (rw (load_program, failed.1, missing) refl) ∙ e))
          | inr got ↦
              let same : (user_code_virt, got.0) ≡ (entry, t) =
                some-injective (sym (rw (load_program, failed.1, got.1) refl) ∙ e) in
              let added =
                map_page-adds accepts code_page r.1.mappings r.1.frames got.0 code_page-frame kept
                  got.1 in
              (
                subst (IsIsolated earlier) (ap (λ (x : ℕ × Space). x.1) same) added.0,
                inr (
                  failed.0,
                  added.1.0,
                  failed.1,
                  ap (λ (x : ℕ × Space). x.1.mappings) (sym same) ∙ added.1.1,
                  ap (λ (x : ℕ × Space). x.0) (sym same),
                ),
              )
        ]
      ]

  -- When setup ends, where no two of the frames handed out earlier, the pages' and the free ones overlap,
  -- no two of them do afterwards. The pages are those of the image, with its entry point, or,
  -- when the loader refuses it, those it got so far and the one of the hand-coded program, with its
  -- address; and behind them the zeroed, writable stack page below the top, from which nothing executes.
  pub setup-IsIsolated :
      (accepts : List Mapping → ℕ → ℕ → Bool) (elf_program : List ℕ) (s : Space) (entry : ℕ)
      (t : Space)
      → (IsIsolated earlier) s
      → setup accepts elf_program s ≡ some (entry, t)
      → (IsIsolated earlier) t
        × ((ms : List Mapping) × (f : ℕ) × (t.mappings ≡ ms ++ (stack_page f ∷ []))
            × Loaded accepts elf_program s entry ms)
  unfolding setup
  setup-IsIsolated accepts elf_program s entry t h e =
      elim (Option-cases (load_program accepts elf_program s)) [
        | inl missing ↦ absurd (none-some (sym (rw missing refl) ∙ e))
        | inr got ↦
            let u : Space = got.0.1 in
            let loaded = load_program-Loaded accepts elf_program s got.0.0 u h got.1 in
            elim (Option-cases (map_page accepts stack_page u)) [
              | inl missing ↦ absurd (none-some (sym (rw (got.1, missing) refl) ∙ e))
              | inr mapped ↦
                  let same : (got.0.0, mapped.0) ≡ (entry, t) =
                    some-injective (sym (rw (got.1, mapped.1) refl) ∙ e) in
                  let added =
                    map_page-adds accepts stack_page u.mappings u.frames mapped.0 stack_page-frame
                      loaded.0 mapped.1 in
                  (
                    subst (IsIsolated earlier) (ap (λ (x : ℕ × Space). x.1) same) added.0,
                    (
                      u.mappings,
                      added.1.0,
                      ap (λ (x : ℕ × Space). x.1.mappings) (sym same) ∙ added.1.1,
                      subst (λ n. Loaded accepts elf_program s n u.mappings)
                          (ap (λ (x : ℕ × Space). x.0) same) loaded.1,
                    ),
                  )
            ]
      ]
