-- ===== src/Meal/History.antt =====
-- What a log contains after any number of events, and that it verifies.
use axiom_os.Base.{
  lt_or_le, length, drop, replicate, All, length-append, length-set, length-drop, drop-drop,
  snoc_append, u64, rotate-set, ℕ, zero, suc, ◌+◌, ◌-◌, ◌≤◌, ◌<◌, min, ◌≡◌, refl, sym, ap, subst,
  ◌∙◌, inl, inr, true, Option, none, some, List, [], ◌∷◌, ◌++◌, map, append-nil, append_assoc,
  arith,
}
use axiom_os.Crypto.Sha256.{sha256}
use axiom_os.Crypto.Hmac.{length-hmac_sha256}
use axiom_os.Meal.{
  AuditEvent, AuditEntry, MealLog, auth_bytes, self_hash, genesis_label, new, sealed_entry, append,
  verify_chain,
}
use axiom_os.Meal.Verify.{slots, MacSized, Chained, present, verify_chain_iff}

-- The arguments of one `append`, with the clock it reads.
pub record Input : Type 0 where
  pub ticks : ℕ
  pub event : AuditEvent
  pub actor : ℕ
  pub value_a : ℕ
  pub value_b : ℕ

abbrev pub append_all : MealLog → List Input → MealLog
append_all m [] = m
append_all m (i ∷ is) = append_all (append m i.ticks i.event i.actor i.value_a i.value_b).1 is

-- The entries that the events make when nothing is ever overwritten: numbered from `seq` on, each with
-- the hash of the one before it.
abbrev pub history : List ℕ → ℕ → List ℕ → List Input → List AuditEntry
history key seq tip [] = []
history key seq tip (i ∷ is) =
    let e = sealed_entry key seq tip i.ticks i.event i.actor i.value_a i.value_b in
    e ∷ history key (u64 (seq + 1)) (self_hash e) is

-- The last 64 entries of a history, behind empty slots while there are fewer.
abbrev pub last_entries : List AuditEntry → List (Option AuditEntry)
last_entries h = replicate (64 - length h) none ++ map some (drop (length h - 64) h)

drop-append_le {ℓ} :
    {A : Type ℓ} (n : ℕ) (xs ys : List A) → n ≤ length xs → drop n (xs ++ ys) ≡ drop n xs ++ ys
drop-append_le zero xs ys h = refl
drop-append_le (suc n) [] ys h = absurd (omega arith)
drop-append_le (suc n) (x ∷ xs) ys h = drop-append_le n xs ys (omega arith)

map-append {ℓ κ} :
    {A : Type ℓ} {B : Type κ} (f : A → B) (xs ys : List A) → map f (xs ++ ys) ≡ map f xs ++ map f ys
map-append f [] ys = refl
map-append f (x ∷ xs) ys = ap (λ l. f x ∷ l) (map-append f xs ys)

drop-map {ℓ κ} :
    {A : Type ℓ} {B : Type κ} (f : A → B) (n : ℕ) (xs : List A)
    → drop n (map f xs) ≡ map f (drop n xs)
drop-map f zero xs = refl
drop-map f (suc n) [] = refl
drop-map f (suc n) (x ∷ xs) = drop-map f n xs

last_entries-snoc :
    (h : List AuditEntry) (e : AuditEntry)
    → last_entries (h ++ (e ∷ [])) ≡ drop 1 (last_entries h) ++ (some e ∷ [])
last_entries-snoc h e =
    let one = length-append h (e ∷ []) in
    elim (lt_or_le (length h) 64) [
      | inl room ↦
          let k = 63 - length h in
          rw
            (
              by_count (64 - length (h ++ (e ∷ []))) k (omega (arith, one)),
              by_count (64 - length h) (suc k) (omega arith),
              by_start (length (h ++ (e ∷ [])) - 64) 0 (h ++ (e ∷ [])) (omega (arith, one)),
              by_start (length h - 64) 0 h (omega arith),
              map-append some h (e ∷ []),
            )
            (sym (append_assoc (replicate k none) (map some h) (some e ∷ [])))
      | inr full ↦
          let n = length h - 64 in
          rw
            (
              by_count (64 - length (h ++ (e ∷ []))) 0 (omega (arith, one)),
              by_count (64 - length h) 0 (omega arith),
              by_start (length (h ++ (e ∷ [])) - 64) (n + 1) (h ++ (e ∷ [])) (omega (arith, one)),
              drop-append_le (n + 1) h (e ∷ []) (omega arith),
              map-append some (drop (n + 1) h) (e ∷ []),
              drop-map some 1 (drop n h),
              drop-drop 1 n h,
            )
            refl
    ]
  where
    by_count : (a b : ℕ) → a ≡ b → replicate {A = Option AuditEntry} a none ≡ replicate b none
    by_count a b p = ap (λ k. replicate k none) p

    by_start : (a b : ℕ) (l : List AuditEntry) → a ≡ b → drop a l ≡ drop b l
    by_start a b l p = ap (λ k. drop k l) p

-- A log that has recorded the history `h`.
pub record Records (m : MealLog) (h : List AuditEntry) : Type 0 where
  pub sized : length m.entries ≡ 64
  pub inside : m.write_head < 64
  pub contents : slots m ≡ last_entries h

append-Records :
    (m : MealLog) (h : List AuditEntry) (i : Input)
    → Records m h
    → Records (append m i.ticks i.event i.actor i.value_a i.value_b).1 (
        h
        ++ (sealed_entry m.audit_key m.total m.chain_tip i.ticks i.event i.actor i.value_a i.value_b
            ∷ []))
unfolding append
append-Records m h i r =
    let e =
      sealed_entry m.audit_key m.total m.chain_tip i.ticks i.event i.actor i.value_a i.value_b in
    let sized = r.sized in
    record {
      sized = length-set m.entries m.write_head (some e) ∙ r.sized;
      inside = omega arith;
      contents =
          rotate-set m.entries 64 m.write_head (some e) r.sized r.inside
          ∙ ap (λ s. drop 1 s ++ (some e ∷ [])) r.contents
          ∙ sym (last_entries-snoc h e);
    }

append_all-Records :
    (m : MealLog) (h : List AuditEntry) (is : List Input)
    → Records m h
    → Records (append_all m is) (h ++ history m.audit_key m.total m.chain_tip is)
unfolding append
append_all-Records m h [] r = rw (append-nil h) r
append_all-Records m h (i ∷ is) r =
    let e =
      sealed_entry m.audit_key m.total m.chain_tip i.ticks i.event i.actor i.value_a i.value_b in
    let rest =
      append_all-Records (append m i.ticks i.event i.actor i.value_a i.value_b).1 (h ++ (e ∷ [])) is
        (append-Records m h i r) in
    subst (Records _) (snoc_append h e _) rest

length-history :
    (key : List ℕ) (is : List Input) (seq : ℕ) (tip : List ℕ)
    → length (history key seq tip is) ≡ length is
length-history key [] seq tip = refl
length-history key (i ∷ is) seq tip = ap suc (length-history key is _ _)

-- A new log that has been given any events holds the last 64 of the entries they make, in order: no
-- entry is lost, repeated or reordered before it is 64 events old.
pub append-contents :
    (key : List ℕ) (is : List Input)
    → slots (append_all (new key) is) ≡ last_entries (history key 0 (sha256 genesis_label) is)
unfolding new
append-contents key is =
    let r =
      append_all-Records (new key) [] is
        (record { sized = refl; inside = omega arith; contents = refl }) in
    r.contents

Chained-history :
    (key : List ℕ) (is : List Input) (seq : ℕ) (tip : List ℕ)
    → Chained key (map some (history key seq tip is)) (some tip)
unfolding sealed_entry auth_bytes
Chained-history key [] seq tip = tt
Chained-history key (i ∷ is) seq tip = (refl, refl, Chained-history key is _ _)

-- A chain without its first entries is a chain.
Chained-suffix :
    (key : List ℕ) (n : ℕ) (h : List AuditEntry) (prev : Option (List ℕ))
    → Chained key (map some h) prev
    → Chained key (map some (drop n h)) none
Chained-suffix key zero [] prev c = tt
Chained-suffix key zero (e ∷ h) prev c = (c.0, tt, c.2)
Chained-suffix key (suc n) [] prev c = tt
Chained-suffix key (suc n) (e ∷ h) prev c = Chained-suffix key n h (some (self_hash e)) c.2

Chained-empty :
    (key : List ℕ) (n : ℕ) (s : List (Option AuditEntry)) (prev : Option (List ℕ))
    → Chained key s prev
    → Chained key (replicate n none ++ s) prev
Chained-empty key zero s prev c = c
Chained-empty key (suc n) s prev c = Chained-empty key n s prev c

present-empty : (n : ℕ) (h : List AuditEntry) → present (replicate n none ++ map some h) ≡ length h
present-empty zero [] = refl
present-empty zero (e ∷ h) = omega (arith, present-empty zero h)
present-empty (suc n) h = present-empty n h

pub macs-empty :
    (n : ℕ) (s : List (Option AuditEntry)) → All MacSized s → All MacSized (replicate n none ++ s)
macs-empty zero s a = a
macs-empty (suc n) s a = (tt, macs-empty n s a)

macs-Chained :
    (key : List ℕ) (h : List AuditEntry) (prev : Option (List ℕ))
    → Chained key (map some h) prev
    → All MacSized (map some h)
macs-Chained key [] prev c = tt
macs-Chained key (e ∷ h) prev c = (
  ap length (sym c.0) ∙ length-hmac_sha256 key (auth_bytes e),
  macs-Chained key h (some (self_hash e)) c.2,
)

Records-verifies :
    (m : MealLog) (h : List AuditEntry) (prev : Option (List ℕ))
    → Records m h
    → Chained m.audit_key (map some h) prev
    → verify_chain m ≡ (min (length h) 64, true)
Records-verifies m h prev r c =
    let n = length h - 64 in
    let suffix = Chained-suffix m.audit_key n h prev c in
    let macs =
      macs-empty (64 - length h) (map some (drop n h))
        (macs-Chained m.audit_key (drop n h) none suffix) in
    (verify_chain_iff m (min (length h) 64) r.sized r.inside
        (subst (All MacSized) (sym r.contents) macs)).1
      (
        subst (λ s. Chained m.audit_key s none) (sym r.contents)
            (Chained-empty m.audit_key (64 - length h) (map some (drop n h)) none suffix),
        omega (arith, length-drop n h)
            ∙ sym (present-empty (64 - length h) (drop n h))
            ∙ ap present (sym r.contents),
      )

audit_key-append_all : (m : MealLog) (is : List Input) → (append_all m is).audit_key ≡ m.audit_key
unfolding append
audit_key-append_all m [] = refl
audit_key-append_all m (i ∷ is) =
    audit_key-append_all (append m i.ticks i.event i.actor i.value_a i.value_b).1 is

-- Whatever events a new log is given, `verify_chain` accepts it and counts its entries: all of them up
-- to 64, and 64 from then on.
pub append-verifies :
    (key : List ℕ) (is : List Input)
    → verify_chain (append_all (new key) is) ≡ (min (length is) 64, true)
unfolding new
append-verifies key is =
    let m = append_all (new key) is in
    let h = history key 0 (sha256 genesis_label) is in
    let r =
      append_all-Records (new key) [] is
        (record { sized = refl; inside = omega arith; contents = refl }) in
    let chain =
      subst (λ k. Chained k (map some h) (some (sha256 genesis_label)))
        (sym (audit_key-append_all (new key) is))
        (Chained-history key is 0 (sha256 genesis_label)) in
    Records-verifies m h (some (sha256 genesis_label)) r chain
    ∙ ap (λ k. (min k 64, true)) (length-history key is 0 (sha256 genesis_label))
