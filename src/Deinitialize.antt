-- ===== src/Deinitialize.antt =====
-- The deinitialization of a tree: deinitializeRootNode and deinitialize of src/nodeImpl.cpp, with the
-- overrides of src/portImpl.cpp, src/stateMachineImpl.cpp, src/pvBaseImpl.cpp, src/pvBaseInImpl.cpp
-- and src/pvBaseOutImpl.cpp. A transition thread that it joins is taken to have ended, and
-- m_pFactory to be set, which initialize does first.
pub mod Gone
pub mod Named
pub mod Trees
pub mod Ends
pub mod Back
pub mod Lawful
use nds.Prelude.{ℕ, Bool, true, false, Option, none, some, List, [], ◌∷◌, map, if◌then◌else◌, Text}
use nds.Types.{logic_error, PvClass}
use nds.Node.{Tree, Children, object, nil, cons, Base, Kind, pv}
use nds.Building.{base_of}
use nds.World.{
  deregister_command, deregister_pv, World, Ending, done, failed, stopped, Above, called, get_port,
  deregister_class, and_then,
}

-- BaseImpl::deinitialize
unfoldable pub base_deinitialize : Base → World → World
base_deinitialize b w = called (map (λ command. deregister_command b.full_name) b.commands) w

-- deregisterPV of the port, where there is one.
unfoldable pub deregister_at : Option Text → ℕ → World → World × Ending
deregister_at none a w = (w, stopped)
deregister_at (some i) a w = (called (deregister_pv i a ∷ []) w, done)

-- The overrides of the PVs.
unfoldable pub pv_deinitialize : List Above → Base → PvClass → ℕ → World → World × Ending
pv_deinitialize above b c a w =
    deregister_at (get_port above) a
      (base_deinitialize b (record w { registry = deregister_class c a w.registry }))

-- Whether the object is a port with no interface.
abbrev pub not_initialized : Kind → Bool
not_initialized (Kind.port t none) = true
not_initialized _ = false

unfoldable mutual
  pub deinit_object : List Above → Tree → World → World × Ending
  deinit_object above (object b (pv c a) cs) w = pv_deinitialize above b c a w
  deinit_object above (object b k cs) w =
      let rest =
        deinit_children (record { base = b; kind = k } ∷ above) cs (base_deinitialize b w) in
      if not_initialized k then (w, failed logic_error) else rest

  pub deinit_children : List Above → Children → World → World × Ending
  deinit_children above nil w = (w, done)
  deinit_children above (cons t cs) w =
      let now = deinit_object above t w in
      let rest = deinit_children above cs now.0 in and_then now rest

unfoldable pub deinitialize_root_node : Tree → World → World × Ending
deinitialize_root_node t w =
    if (base_of t).has_parent then (w, failed logic_error) else deinit_object [] t w
