-- ===== src/Capability/Encoding.antt =====
-- The bytes under the MAC: their layout, and that they determine every field.
use axiom_os.Base.{
  ℕ, ◌^◌, ◌<◌, ◌≡◌, sym, ap, arith, List, [], ◌∷◌, ◌++◌, length, set, overwrite, replicate,
  length-append, set-eq-overwrite, overwrite-overwrite, overwrite_to_end, append-injective,
  append_assoc, snoc_append, cons-injective, ◌∙◌,
}
use axiom_os.Base.Bytes.{to_le, length-to_le, to_le-injective}
use axiom_os.Capability.{auth_bytes}

-- object_id (8) | rights (1) | expires_at (8) | depth (1) | parent_hash (32)
pub auth_bytes_lem :
    (oid rights expires depth : ℕ) (parent : List ℕ)
    → length parent ≡ 32
    → auth_bytes oid rights expires depth parent
      ≡ to_le 8 oid ++ (rights ∷ (to_le 8 expires ++ (depth ∷ parent)))
unfolding auth_bytes
auth_bytes_lem oid rights expires depth parent e =
    let z : List ℕ = replicate 50 0 in
    let a = to_le 8 oid in
    let b = to_le 8 expires in
    let la = length-to_le 8 oid in
    let lb = length-to_le 8 expires in
    let r = rights ∷ [] in
    let d = depth ∷ [] in
    let s1 : set (overwrite z 0 a) 8 rights ≡ overwrite z 0 (a ++ r) =
      set-eq-overwrite (overwrite z 0 a) 8 rights
      ∙ overwrite-overwrite z 0 8 a r (omega (arith, la)) in
    let l1 = length-append a r in
    let s2 : overwrite (overwrite z 0 (a ++ r)) 9 b ≡ overwrite z 0 ((a ++ r) ++ b) =
      overwrite-overwrite z 0 9 (a ++ r) b (omega (arith, la, l1)) in
    let l2 = length-append (a ++ r) b in
    let s3 : set (overwrite z 0 ((a ++ r) ++ b)) 17 depth ≡ overwrite z 0 (((a ++ r) ++ b) ++ d) =
      set-eq-overwrite (overwrite z 0 ((a ++ r) ++ b)) 17 depth
      ∙ overwrite-overwrite z 0 17 ((a ++ r) ++ b) d (omega (arith, la, lb, l1, l2)) in
    let l3 = length-append ((a ++ r) ++ b) d in
    let s4 : overwrite (overwrite z 0 (((a ++ r) ++ b) ++ d)) 18 parent
        ≡ overwrite z 0 ((((a ++ r) ++ b) ++ d) ++ parent) =
      overwrite-overwrite z 0 18 (((a ++ r) ++ b) ++ d) parent
        (omega (arith, la, lb, l1, l2, l3)) in
    let l4 = length-append (((a ++ r) ++ b) ++ d) parent in
    let s5 : overwrite z 0 ((((a ++ r) ++ b) ++ d) ++ parent) ≡ (((a ++ r) ++ b) ++ d) ++ parent =
      overwrite_to_end z 0 ((((a ++ r) ++ b) ++ d) ++ parent)
        (omega (arith, la, lb, l1, l2, l3, l4, e)) in
    ap (λ l. overwrite (set (overwrite l 9 b) 17 depth) 18 parent) s1
    ∙ ap (λ l. overwrite (set l 17 depth) 18 parent) s2
    ∙ ap (λ l. overwrite l 18 parent) s3
    ∙ s4
    ∙ s5
    ∙ snoc_append ((a ++ r) ++ b) depth parent
    ∙ append_assoc (a ++ r) b (depth ∷ parent)
    ∙ snoc_append a rights (b ++ (depth ∷ parent))

-- Two capabilities have the same authenticated bytes only if they agree in each field.
pub auth_bytes-injective :
    (o₁ r₁ e₁ d₁ : ℕ) (p₁ : List ℕ) (o₂ r₂ e₂ d₂ : ℕ) (p₂ : List ℕ)
    → o₁ < 2 ^ 64
    → o₂ < 2 ^ 64
    → e₁ < 2 ^ 64
    → e₂ < 2 ^ 64
    → length p₁ ≡ 32
    → length p₂ ≡ 32
    → auth_bytes o₁ r₁ e₁ d₁ p₁ ≡ auth_bytes o₂ r₂ e₂ d₂ p₂
    → (o₁ ≡ o₂) × (r₁ ≡ r₂) × (e₁ ≡ e₂) × (d₁ ≡ d₂) × (p₁ ≡ p₂)
auth_bytes-injective o₁ r₁ e₁ d₁ p₁ o₂ r₂ e₂ d₂ p₂ h₁ h₂ h₃ h₄ l₁ l₂ e =
    let whole = sym (auth_bytes_lem o₁ r₁ e₁ d₁ p₁ l₁) ∙ e ∙ auth_bytes_lem o₂ r₂ e₂ d₂ p₂ l₂ in
    let s =
      append-injective (to_le 8 o₁) (to_le 8 o₂) (r₁ ∷ (to_le 8 e₁ ++ (d₁ ∷ p₁)))
        (r₂ ∷ (to_le 8 e₂ ++ (d₂ ∷ p₂))) (length-to_le 8 o₁ ∙ sym (length-to_le 8 o₂)) whole in
    let c = cons-injective s.1 in
    let t =
      append-injective (to_le 8 e₁) (to_le 8 e₂) (d₁ ∷ p₁) (d₂ ∷ p₂)
        (length-to_le 8 e₁ ∙ sym (length-to_le 8 e₂)) c.1 in
    let f = cons-injective t.1 in
    (to_le-injective 8 o₁ o₂ h₁ h₂ s.0, c.0, to_le-injective 8 e₁ e₂ h₃ h₄ t.0, f.0, f.1)
