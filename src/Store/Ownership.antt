-- ===== src/Store/Ownership.antt =====
-- What the repository of internal/store/memory.go holds after any history: entries under their own
-- tenant and ID, of tenants that exist, and rules that pass validation.
use anix_ops_sd_wan.Base.{Text, ◌==◌, ◌≡◌, some, arith, Option-cases, ok, inl, inr, Bool-cases}
use anix_ops_sd_wan.Base.Table.{
  Table, lookup, put, remove, IsMap, put-IsMap, remove-IsMap, Entries, put-Entries, remove-Entries,
  map-Entries, lookup-put, lookup-Entries,
}
use anix_ops_sd_wan.Net.{Net}
use anix_ops_sd_wan.Domain.{Tenant, Device, Node, ConfigBundle}
use anix_ops_sd_wan.Policy.{Rule, validate}
use anix_ops_sd_wan.Store.{Memory, inner, put_inner}

abbrev pub IsKnown : Table Tenant → Text → Type 0
IsKnown tenants t = (tenant : Tenant) × (lookup t tenants ≡ some tenant)

IsKnown-put :
    (tenants : Table Tenant) (k : Text) (tenant : Tenant) (t : Text)
    → IsKnown tenants t
    → IsKnown (put k tenant tenants) t
IsKnown-put tenants k tenant t (old, e) = elim (Bool-cases (k == t)) [
  | inl same ↦ (tenant, ground (arith, same, lookup-put k t tenant tenants))
  | inr other ↦ (old, ground (arith, other, e, lookup-put k t tenant tenants))
]

-- A table of tables: each key is a tenant that exists, each inner key has what P says of it.
module _ {V : Type 0} (P : Text → Text → V → Type 0) where
  abbrev pub IsShelf : Table Tenant → Text → Table V → Type 0
  IsShelf tenants t shelf = IsKnown tenants t × IsMap shelf × Entries (P t) shelf

  abbrev pub IsOwned : Table Tenant → Table (Table V) → Type 0
  IsOwned tenants m = Entries (IsShelf tenants) m

  pub IsOwned-grown :
      (tenants : Table Tenant) (k : Text) (tenant : Tenant) (m : Table (Table V))
      → IsOwned tenants m
      → IsOwned (put k tenant tenants) m
  IsOwned-grown tenants k tenant m h =
      map-Entries (IsShelf tenants) (IsShelf (put k tenant tenants)) m
        (λ t shelf s. (IsKnown-put tenants k tenant t s.0, s.1, s.2)) h

  pub inner-IsShelf :
      (tenants : Table Tenant) (t : Text) (m : Table (Table V))
      → IsOwned tenants m
      → IsMap (inner t m) × Entries (P t) (inner t m)
  inner-IsShelf tenants t m h = elim (Option-cases (lookup t m)) [
    | inl e ↦ rw e (tt, tt)
    | inr (shelf, e) ↦
        let (known, keys, entries) = lookup-Entries (IsShelf tenants) t m h e in
        rw e (keys, entries)
  ]

  pub put_inner-IsOwned :
      (tenants : Table Tenant) (t k : Text) (v : V) (m : Table (Table V))
      → IsKnown tenants t
      → P t k v
      → IsOwned tenants m
      → IsOwned tenants (put_inner t k v m)
  put_inner-IsOwned tenants t k v m known p h =
      let (keys, shelf) = inner-IsShelf tenants t m h in
      put-Entries (IsShelf tenants) t (put k v (inner t m)) m
        (known, put-IsMap k v (inner t m) keys, put-Entries (P t) k v (inner t m) p shelf) h

  pub remove_inner-IsOwned :
      (tenants : Table Tenant) (t k : Text) (m : Table (Table V))
      → IsKnown tenants t
      → IsOwned tenants m
      → IsOwned tenants (put t (remove k (inner t m)) m)
  remove_inner-IsOwned tenants t k m known h =
      let (keys, shelf) = inner-IsShelf tenants t m h in
      put-Entries (IsShelf tenants) t (remove k (inner t m)) m
        (known, remove-IsMap k (inner t m) keys, remove-Entries (P t) k (inner t m) shelf) h

abbrev pub OwnDevice : Text → Text → Device → Type 0
OwnDevice t k d = (d.id ≡ k) × (d.tenant_id ≡ t)

abbrev pub OwnNode : Text → Text → Node → Type 0
OwnNode t k n = (n.id ≡ k) × (n.tenant_id ≡ t)

abbrev pub OwnBundle : Text → Text → ConfigBundle → Type 0
OwnBundle t k b = (b.id ≡ k) × (b.tenant_id ≡ t)

module _ (net : Net) where
  abbrev pub OwnRule : Text → Text → Rule → Type 0
  OwnRule t k r = (r.id ≡ k) × (r.tenant_id ≡ t) × (validate net r ≡ ok tt)

  pub record IsRepository (m : Memory) : Type 0 where
    pub tenants : IsMap m.tenants × Entries (λ k t. t.id ≡ k) m.tenants
    pub devices : IsOwned OwnDevice m.tenants m.devices
    pub nodes : IsOwned OwnNode m.tenants m.nodes
    pub policies : IsOwned OwnRule m.tenants m.policies
    pub configs : IsOwned OwnBundle m.tenants m.configs
