-- ===== src/WindowsNet/Routes.antt =====
-- What additions and deletions of routes do to the table (src/windows_net.rs).
use phobos_wg_client.Base.{
  ℕ, Bool, true, false, ◌||◌, [], ◌∷◌, Option, ◌≡◌, ◌≢◌, ◌↔◌, ◌⊎◌, refl, sym, ap, subst, ◌∙◌, arith,
  inl, inr, if◌then◌else◌, ◌==◌, ==_iff, Bool-cases,
}
use phobos_wg_client.Base.Net.{IpAddr, ip_eq_iff}
use phobos_wg_client.Base.Result.{Result, ok, err, if_preserves}
use phobos_wg_client.Text.Replace.{true-false}
use phobos_wg_client.WindowsNet.{
  Row, Table, same_row, has_row, remove_row, System, row_of, delete_row, create_row,
  delete_ip_route, add_ip_route,
}

-- A row that is refused as being there already is there.
abbrev pub IsFaithful : System → Type 0
IsFaithful sys = (r : Row) (t : Table) → sys.create r t ≡ 5010 → has_row r t ≡ true

-- A row is deleted, or is not found and is not there.
abbrev pub IsDeleting : System → Type 0
IsDeleting sys =
    (r : Row) (t : Table) → (sys.delete r t ≡ 0) ⊎ ((sys.delete r t ≡ 1168) × (has_row r t ≡ false))

same_row_iff :
    (r s : Row)
    → (same_row r s ≡ true) ↔ (
        (r.interface_index ≡ s.interface_index)
        × (r.prefix ≡ s.prefix)
        × (r.prefix_length ≡ s.prefix_length)
        × (r.next_hop ≡ s.next_hop))
unfolding same_row
same_row_iff r s = ground (arith, ip_eq_iff r.prefix s.prefix, ip_eq_iff r.next_hop s.next_hop)

pub same_row_refl : (r : Row) → same_row r r ≡ true
same_row_refl r = (same_row_iff r r).1 (refl, refl, refl, refl)

same_row_trans : (s r q : Row) → same_row s q ≡ true → same_row s r ≡ true → same_row r q ≡ true
same_row_trans s r q h k =
    let (a, b, c, d) = (same_row_iff s q).0 h in
    let (a', b', c', d') = (same_row_iff s r).0 k in
    (same_row_iff r q).1 (sym a' ∙ a, sym b' ∙ b, sym c' ∙ c, sym d' ∙ d)

-- A row that is removed is not another one that is asked for.
same_row_apart : (s r q : Row) → same_row s q ≡ true → same_row r q ≡ false → same_row s r ≡ false
same_row_apart s r q h k = elim (Bool-cases (same_row s r)) [
  | inl e ↦ absurd (true-false (sym (same_row_trans s r q h e) ∙ k))
  | inr e ↦ e
]

or_cong : (a b c : Bool) → b ≡ c → (a || b) ≡ (a || c)
or_cong a b c h = ap (λ x. a || x) h

-- Removing one row changes nothing for another one.
has_row-remove_other :
    (r q : Row) (t : Table) → same_row r q ≡ false → has_row q (remove_row r t) ≡ has_row q t
unfolding has_row remove_row
has_row-remove_other r q [] h = refl
has_row-remove_other r q (s ∷ t) h = elim (Bool-cases (same_row s r)) [
  | inl e ↦ rw (e, differs e) (has_row-remove_other r q t h)
  | inr e ↦ rw e (
      or_cong (same_row s q) (has_row q (remove_row r t)) (has_row q t)
        (has_row-remove_other r q t h))
]
  where
    differs : same_row s r ≡ true → same_row s q ≡ false
    differs e = elim (Bool-cases (same_row s q)) [
      | inl d ↦ absurd (true-false (sym (same_row_trans s r q d e) ∙ h))
      | inr d ↦ d
    ]

has_row-remove : (r : Row) (t : Table) → has_row r (remove_row r t) ≡ false
unfolding has_row remove_row
has_row-remove r [] = refl
has_row-remove r (s ∷ t) = elim (Bool-cases (same_row s r)) [
  | inl e ↦ rw e (has_row-remove r t)
  | inr e ↦ rw (e, e) (has_row-remove r t)
]

pub delete_row-other :
    (sys : System) (r q : Row) (t : Table)
    → same_row r q ≡ false
    → has_row q (delete_row sys r t).table ≡ has_row q t
unfolding delete_row
delete_row-other sys r q t h =
    if_preserves (λ x. has_row q x ≡ has_row q t) (sys.delete r t == 0) (remove_row r t) t
      (λ e. has_row-remove_other r q t h) (λ e. refl)

-- A row that is deleted is not there any more.
pub delete_row-gone :
    (sys : System) (r : Row) (t : Table)
    → IsDeleting sys
    → has_row r (delete_row sys r t).table ≡ false
unfolding delete_row
delete_row-gone sys r t d =
    if_preserves (λ x. has_row r x ≡ false) (sys.delete r t == 0) (remove_row r t) t
      (λ e. has_row-remove r t) (λ e. missing (d r t) e)
  where
    missing :
        ((sys.delete r t ≡ 0) ⊎ ((sys.delete r t ≡ 1168) × (has_row r t ≡ false)))
        → (sys.delete r t == 0) ≡ false
        → has_row r t ≡ false
    missing (inl z) e = ground arith
    missing (inr (n, h)) e = h

create_row-other :
    (sys : System) (r q : Row) (t : Table)
    → same_row r q ≡ false
    → has_row q (create_row sys r t).table ≡ has_row q t
unfolding create_row has_row
create_row-other sys r q t h =
    if_preserves (λ x. has_row q x ≡ has_row q t) (sys.create r t == 0) (r ∷ t) t (λ e. rw h refl)
      (λ e. refl)

-- A row whose creation is reported as done is there.
create_row-there :
    (sys : System) (r : Row) (t : Table)
    → IsFaithful sys
    → (create_row sys r t).result ≡ ok tt
    → has_row r (create_row sys r t).table ≡ true
unfolding create_row has_row
create_row-there sys r t f h = elim (Bool-cases (sys.create r t == 0)) [
  | inl e ↦ rw (e, same_row_refl r) refl
  | inr e ↦ elim (Bool-cases (sys.create r t == 5010)) [
    | inl x ↦ rw e (f r t ((==_iff (sys.create r t) 5010).0 x))
    | inr x ↦ absurd (
        refused (sys.create r t)
          (subst (λ b. (if b then ok tt else err (sys.create r t)) ≡ ok tt) (none_of e x) h))
  ]
]
  where
    none_of : {a b : Bool} → a ≡ false → b ≡ false → (a || b) ≡ false
    none_of h k = rw (h, k) refl

    refused : (n : ℕ) → ◌≢◌ {0} {A = Result {0, 0} ℕ (Unit {0})} (err n) (ok tt)
    refused n e = ground arith

-- A route that is added is there, and no other one comes or goes.
pub add_ip_route-there :
    (sys : System) (i : ℕ) (dest : IpAddr) (len : ℕ) (hop : Option IpAddr) (metric : ℕ) (t : Table)
    → IsFaithful sys
    → (add_ip_route sys i dest len hop metric t).result ≡ ok tt
    → has_row (row_of i dest len hop metric) (add_ip_route sys i dest len hop metric t).table ≡ true
unfolding add_ip_route
add_ip_route-there sys i dest len hop metric t f h =
    create_row-there sys (row_of i dest len hop metric) (delete_ip_route sys i dest len hop t).table
      f h

pub add_ip_route-other :
    (sys : System) (i : ℕ) (dest : IpAddr) (len : ℕ) (hop : Option IpAddr) (metric : ℕ) (q : Row)
    (t : Table)
    → same_row (row_of i dest len hop metric) q ≡ false
    → has_row q (add_ip_route sys i dest len hop metric t).table ≡ has_row q t
unfolding add_ip_route delete_ip_route same_row
add_ip_route-other sys i dest len hop metric q t h =
    create_row-other sys (row_of i dest len hop metric) q
      (delete_row sys (row_of i dest len hop 0) t).table h
    ∙ delete_row-other sys (row_of i dest len hop 0) q t h
