-- ===== src/Devices/Lifetime.antt =====
-- The life of a device: what createDevice, destroyDevice and preDelete leave behind.
use nds.Prelude.{
  ℕ, ◌≡◌, refl, sym, ap, ◌∙◌, ◌≢◌, inl, inr, Option, none, some, List, [], ◌∷◌, ◌++◌, map, arith,
  Option-cases, All, Text, text_eq_iff, text_eq_refl, Map, lookup, insert, erase, lookup-insert,
  lookup-erase,
}
use nds.Types.{Result, ok, err, Exception, device_already_created}
use nds.Devices.{
  Device, Event, Devices, Allocate, finish_creation, reserve, create_device, nodes_of, release,
  find_device, deinitialize_nodes, deallocate, erase_device, release_nodes, deallocate_at,
  destroy_pointer, destroy_device, all_nodes, deallocate_all, pre_delete, deinitialized,
  deallocated,
}
use nds.Devices.Held.{HeldBy, nodes_of-HeldBy}
use mathlib.Core.List.{append_assoc, append-nil}

-- How createDevice answers.
pub data CreateCase (allocate : Allocate) (name : Text) (s : Devices) (a : Devices × Result ℕ)
    : Type 0 where
  name_taken :
      (d : Device)
      → lookup name s.allocated ≡ some d
      → a ≡ (s, err device_already_created)
      → CreateCase allocate name s a
  allocation_failed :
      (e : Exception)
      → lookup name s.allocated ≡ none
      → (allocate (reserve name s)).1 ≡ err e
      → a.1 ≡ err e
      → lookup name a.0.allocated ≡ none
      → ((j : Text)
          → j ≢ name
          → lookup j a.0.allocated ≡ lookup j (allocate (reserve name s)).0.allocated)
      → CreateCase allocate name s a
  created :
      (p f : ℕ)
      → lookup name s.allocated ≡ none
      → (allocate (reserve name s)).1 ≡ ok (p, f)
      → a.1 ≡ ok p
      → lookup name a.0.allocated ≡ some (record { pointer = p; deallocation_function = some f })
      → ((j : Text)
          → j ≢ name
          → lookup j a.0.allocated ≡ lookup j (allocate (reserve name s)).0.allocated)
      → CreateCase allocate name s a

lookup-erase_same : (k : Text) (m : Map Device) → lookup k (erase k m) ≡ none
lookup-erase_same k m = rw (lookup-erase k k m, text_eq_refl k)

lookup-erase_other : (k j : Text) (m : Map Device) → j ≢ k → lookup j (erase k m) ≡ lookup j m
lookup-erase_other k j m ne = ground (arith, lookup-erase k j m, text_eq_iff k j)

lookup-insert_same : (k : Text) (d : Device) (m : Map Device) → lookup k (insert k d m) ≡ some d
lookup-insert_same k d m = rw (lookup-insert k k d m, text_eq_refl k)

lookup-insert_other :
    (k j : Text) (d : Device) (m : Map Device) → j ≢ k → lookup j (insert k d m) ≡ lookup j m
lookup-insert_other k j d m ne = ground (arith, lookup-insert k j d m, text_eq_iff k j)

-- Every answer of createDevice: DeviceAlreadyCreated where the name has a device, and nothing is
-- changed; the exception of the allocation, and the name is free again; and otherwise the device's
-- address, which the name leads to. Where the driver is called, the other names are as it left them.
pub create_device-CreateCase :
    (allocate : Allocate) (name : Text) (s : Devices)
    → CreateCase allocate name s (create_device allocate name s)
unfolding finish_creation create_device
create_device-CreateCase allocate name s = elim (Option-cases (lookup name s.allocated)) [
  | inr (d, e) ↦ name_taken d e (rw (create_device, e))
  | inl e ↦ rw (create_device, e) (run e (allocate (reserve name s)).1 refl)
]
  where
    run :
        lookup name s.allocated ≡ none
        → (answer : Result (ℕ × ℕ)) → (allocate (reserve name s)).1 ≡ answer
        → CreateCase allocate name s
            (finish_creation name (allocate (reserve name s)).0 (allocate (reserve name s)).1)
    run e (err x) q =
        rw q (
          allocation_failed x e q refl (lookup-erase_same name _)
            (λ j. lookup-erase_other name j _))
    run e (ok (p, f)) q =
        rw q
          (created p f e q refl (lookup-insert_same name _ _) (λ j. lookup-insert_other name j _ _))

-- No entry of another name has the address.
abbrev pub Alone : ℕ → Text → Map Device → Type 0
Alone p name m = All (λ entry. entry.0 ≢ name → entry.1.pointer ≢ p) m

find_device-insert :
    (p : ℕ) (name : Text) (g : Option ℕ) (m : Map Device)
    → Alone p name m
    → find_device p (insert name (record { pointer = p; deallocation_function = g }) m)
      ≡ some (name, record { pointer = p; deallocation_function = g })
unfolding find_device insert
find_device-insert p name g [] h = ground arith
find_device-insert p name g ((j, d) ∷ m) h =
    ground (arith, text_eq_iff j name, h.0, find_device-insert p name g m h.1)

destroy_found :
    (c : ℕ) (rest : Text) (d : Device) (f : ℕ) (s : Devices)
    → lookup (c ∷ rest) s.allocated ≡ some d
    → find_device d.pointer s.allocated ≡ some (c ∷ rest, d)
    → d.deallocation_function ≡ some f
    → destroy_device (c ∷ rest) s ≡ (
      record {
        allocated = erase (c ∷ rest) s.allocated;
        held = release d.pointer s.held;
        events =
            s.events
            ++ map deinitialized (nodes_of d.pointer s.held)
            ++ deallocated f d.pointer ∷ [];
      },
      ok tt,
    )
unfolding destroy_pointer deinitialize_nodes erase_device release_nodes destroy_device erase release
    nodes_of deallocate_at deallocate
destroy_found c rest d f s e g h = rw (destroy_device, e, deallocate_at, g, deallocate, h)

destroy_created :
    (c : ℕ) (rest : Text) (p f : ℕ) (s : Devices)
    → Alone p (c ∷ rest) s.allocated
    → let name = c ∷ rest in
      let s' = (finish_creation name s (ok (p, f))).0 in
      let (t, answer) = destroy_device name s' in
      (answer ≡ ok tt)
      × (t.events ≡ s.events ++ map deinitialized (nodes_of p s.held) ++ deallocated f p ∷ [])
      × (t.held ≡ release p s.held)
      × (lookup name t.allocated ≡ none)
      × ((j : Text) → j ≢ name → lookup j t.allocated ≡ lookup j s.allocated)
unfolding finish_creation
destroy_created c rest p f s h =
    let d : Device = record { pointer = p; deallocation_function = some f } in
    rw
      (destroy_found c rest d f (finish_creation (c ∷ rest) s (ok (p, f))).0
        (lookup-insert_same (c ∷ rest) d s.allocated)
        (find_device-insert p (c ∷ rest) (some f) s.allocated h) refl)
      (
        refl,
        refl,
        refl,
        lookup-erase_same (c ∷ rest) _,
        λ j ne.
            lookup-erase_other (c ∷ rest) j _ ne
            ∙ lookup-insert_other (c ∷ rest) j d s.allocated ne,
      )

-- Where createDevice of a name that is not empty returns, and no other device has the new device's
-- address, destroyDevice of the name deinitializes the nodes that are held for the address, in their
-- order, and then calls the deallocation function; it frees the name, leaves the other names as the
-- driver left them, and takes just those nodes out of the held ones.
pub destroy_device-create_device :
    (allocate : Allocate) (c : ℕ) (rest : Text) (p f : ℕ) (before s : Devices)
    → lookup (c ∷ rest) before.allocated ≡ none
    → allocate (reserve (c ∷ rest) before) ≡ (s, ok (p, f))
    → Alone p (c ∷ rest) s.allocated
    → (nodes : List ℕ) (others : List (ℕ × List ℕ)) → HeldBy p s.held nodes others
    → let name = c ∷ rest in
      let (t, answer) = destroy_device name (create_device allocate name before).0 in
      (answer ≡ ok tt)
      × (t.events ≡ s.events ++ map deinitialized nodes ++ deallocated f p ∷ [])
      × (t.held ≡ others)
      × (lookup name t.allocated ≡ none)
      × ((j : Text) → j ≢ name → lookup j t.allocated ≡ lookup j s.allocated)
unfolding create_device destroy_device lookup
destroy_device-create_device allocate c rest p f before s e q h nodes others k =
    let (at, left) = nodes_of-HeldBy p s.held nodes others k in
    rw (← at, ← left, create_device, e, q) (destroy_created c rest p f s h)

abbrev pub deallocation : Option ℕ → ℕ → List Event
deallocation none p = []
deallocation (some f) p = deallocated f p ∷ []

-- The calls that the destruction of all the devices makes.
abbrev pub deallocations : Map Device → List Event
deallocations [] = []
deallocations ((name, d) ∷ m) = deallocation d.deallocation_function d.pointer ++ deallocations m

-- No device is still being created.
abbrev pub AllCreated : Map Device → Type 0
AllCreated m = All (λ entry. entry.1.deallocation_function ≢ none) m

deallocate-some :
    (d : Device) (f : ℕ) (s : Devices)
    → d.deallocation_function ≡ some f
    → deallocate d s ≡ (record s { events = s.events ++ deallocated f d.pointer ∷ [] }, ok tt)
unfolding deallocate
deallocate-some d f s e = rw (deallocate, e)

deallocate_all-events :
    (m : Map Device) (s : Devices)
    → AllCreated m
    → deallocate_all m s ≡ (record s { events = s.events ++ deallocations m }, ok tt)
unfolding deallocate_all deallocate
deallocate_all-events [] s h =
    ap (λ l. (record s { events = l }, ok tt)) (sym (append-nil s.events))
deallocate_all-events ((name, d) ∷ m) s h = elim (Option-cases d.deallocation_function) [
  | inl e ↦ elim (h.0 e) [ ]
  | inr (f, e) ↦
      rw (deallocate_all, deallocate-some d f s e, deallocate_all-events m _ h.1, e)
        (ap (λ l. (record s { events = l }, ok tt))
          (append_assoc s.events (deallocated f d.pointer ∷ []) (deallocations m)))
]

-- Where no device is still being created, preDelete deinitializes every held node, then calls the
-- deallocation function of every device in the order of the names, and holds no node any more.
pre_delete-events :
    (s : Devices)
    → AllCreated s.allocated
    → pre_delete s ≡ (
      record s {
        held = [];
        events = s.events ++ map deinitialized (all_nodes s.held) ++ deallocations s.allocated;
      },
      ok tt,
    )
unfolding pre_delete deinitialize_nodes
pre_delete-events s h = rw (deallocate_all-events s.allocated _ h)
