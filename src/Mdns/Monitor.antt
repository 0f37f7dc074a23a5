-- ===== src/Mdns/Monitor.antt =====
-- avahi-test/main/avahi-port/iface-esp32.c: the one network interface that avahi is told of.
use esp_network_examples.Prelude.{
  ℕ, suc, ℤ, pos, negsuc, Bool, true, List, ◌∷◌, Option, none, some, ◌≡◌, ◌⊎◌, inl, inr, refl,
  codes,
}
use esp_network_examples.Os.{Env, Io, Trace, ask, return, ◌>>=◌}

-- What avahi is called for; objects are numbers above 0.
pub data MonitorCall : Type 0 where
  new_hardware : MonitorCall
  duplicate : List ℕ → MonitorCall
  new_interface new_address check_relevant update_rrs : ℕ → MonitorCall

-- What the code writes to the objects: the interface's name, whether it is usable and its MTU,
-- whether its address is global, and whether the monitor's list is complete.
pub record Monitor : Type 0 where
  pub name : ℤ
  pub flags_ok : Bool
  pub mtu : ℕ
  pub global_scope : Bool
  pub list_complete : Bool

abbrev pub object : ℤ → Option ℕ
object (pos (suc n)) = some (suc n)
object _ = none

-- With the address, the list is complete.
unfoldable pub with_address :
    Env MonitorCall → ℕ → Option ℕ → Monitor → Io MonitorCall (ℤ × Monitor)
with_address env i none m = return (negsuc 0, m)
with_address env i (some a) m = do
  _ ← ask env (check_relevant i)
  _ ← ask env (update_rrs i)
  return (pos 0, record m { global_scope = true; list_complete = true })

unfoldable pub with_interface : Env MonitorCall → Option ℕ → Monitor → Io MonitorCall (ℤ × Monitor)
with_interface env none m = return (negsuc 0, m)
with_interface env (some i) m = ask env (new_address i) >>= λ a. with_address env i (object a.ret) m

unfoldable pub with_hardware : Env MonitorCall → Option ℕ → Monitor → Io MonitorCall (ℤ × Monitor)
with_hardware env none m = return (negsuc 0, m)
with_hardware env (some h) m = do
  name ← ask env (duplicate (codes "WIFI_STA"))
  a ← ask env (new_interface h)
  with_interface env (object a.ret) (record m { name = name.ret; flags_ok = true; mtu = 1500 })

unfoldable pub monitor_init_osdep : Env MonitorCall → Monitor → Io MonitorCall (ℤ × Monitor)
monitor_init_osdep env m = ask env new_hardware >>= λ a. with_hardware env (object a.ret) m

unfoldable pub monitor_sync : Monitor → Monitor
monitor_sync m = record m { list_complete = true }

-- The records were updated last.
abbrev pub Updated : Trace MonitorCall → Type 0
Updated ((update_rrs i, a) ∷ t) = Unit
Updated _ = ⊥

-- The result is 0, the list complete and the records updated, with an interface that is usable and
-- has a global address; or it is -1 and the list is as it was.
abbrev pub Initialised : Monitor → (ℤ × Monitor) × Trace MonitorCall → Type 0
Initialised m ((r, m'), t) =
    ((r ≡ pos 0)
      × ((m'.list_complete ≡ true)
          × ((m'.flags_ok ≡ true) × ((m'.global_scope ≡ true) × Updated t))))
    ⊎ ((r ≡ negsuc 0) × (m'.list_complete ≡ m.list_complete))

with_address-Initialised :
    (env : Env MonitorCall) (i : ℕ) (o : Option ℕ) (m m' : Monitor) (t : Trace MonitorCall)
    → m'.flags_ok ≡ true
    → m'.list_complete ≡ m.list_complete
    → Initialised m (with_address env i o m' t)
unfolding with_address
with_address-Initialised env i none m m' t u h = inr (refl, h)
with_address-Initialised env i (some a) m m' t u h = inl (refl, (refl, (u, (refl, tt))))

with_interface-Initialised :
    (env : Env MonitorCall) (o : Option ℕ) (m m' : Monitor) (t : Trace MonitorCall)
    → m'.flags_ok ≡ true
    → m'.list_complete ≡ m.list_complete
    → Initialised m (with_interface env o m' t)
unfolding with_interface
with_interface-Initialised env none m m' t u h = inr (refl, h)
with_interface-Initialised env (some i) m m' t u h = with_address-Initialised env i _ m m' _ u h

with_hardware-Initialised :
    (env : Env MonitorCall) (o : Option ℕ) (m : Monitor) (t : Trace MonitorCall)
    → Initialised m (with_hardware env o m t)
unfolding with_hardware
with_hardware-Initialised env none m t = inr (refl, refl)
with_hardware-Initialised env (some h) m t = with_interface-Initialised env _ m _ _ refl refl

-- Whatever avahi answers: the result is 0, the list is complete and the records are updated, with
-- an interface that is usable and has a global address; or it is -1 and the list is as it was.
pub monitor_init_osdep-Initialised :
    (env : Env MonitorCall) (m : Monitor) (t : Trace MonitorCall)
    → Initialised m (monitor_init_osdep env m t)
unfolding monitor_init_osdep
monitor_init_osdep-Initialised env m t = with_hardware-Initialised env _ m _
