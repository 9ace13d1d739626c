-- ===== src/Rt/Capacity.antt =====
-- rt.go, allocate: no CPU of a node reaches 950 thousandths, whatever the claims of the pod.
use dra_rt_driver.Prelude.{
  ℕ, ◌+◌, ◌<◌, ◌≡◌, ◌≢◌, refl, sym, ap, subst, ◌∙◌, String, string_key, ◌==◌, List, [], ◌∷◌, ◌++◌,
  map, length, All, arith,
}
use mathlib.Core.List.{append-nil, append_assoc}
use dra_rt_driver.Prelude.Int.{pos, pos_part, add_int, add_int_small}
use dra_rt_driver.Prelude.Decimal.{itoa, atoi}
use dra_rt_driver.Prelude.GoMap.{
  insert, lookup-insert, All-insert, HasDistinctKeys-insert, lookup-All,
}
use dra_rt_driver.Prelude.Outcome.{ok}
use dra_rt_driver.Nas.{AllocatedCpu, MappedUtil, util_at}
use dra_rt_driver.Nas.Load.{share, load, load-cons}
use dra_rt_driver.Nas.Utilisation.{Adds, Adds-nil, Adds-append, util_at-insert}
use dra_rt_driver.Rt.Within.{IsWithin, IsWithinEntry, Bears, util_at-IsWithin}
use dra_rt_driver.Params.{RtClaimParametersSpec}
use dra_rt_driver.Partition.Fits.{HasRoom, Picked}
use dra_rt_driver.Partition.Choice.{IsDistinct}
use dra_rt_driver.Rt.Propose.{Picks, take_cpu, take_cpus}

-- The map with `used` more on one CPU.
abbrev raised : String → ℕ → MappedUtil → MappedUtil
raised cpu used m = insert cpu (record { util = add_int (util_at cpu m) (pos used) }) m

take_cpu-raised :
    (params : RtClaimParametersSpec) (used : ℕ) (cpu : String) (s : Picks)
    → itoa (atoi cpu) ≡ cpu
    → (take_cpu params (pos used) cpu s).util ≡ raised cpu used s.util
unfolding take_cpu
take_cpu-raised params used cpu s h = rw h refl

-- What a CPU with room has in use.
room_for :
    (cpu : String) (used : ℕ) (m : MappedUtil)
    → IsWithin m
    → Picked m (pos used) cpu
    → (u : ℕ) × (util_at cpu m ≡ pos u) × (u + used < 950) × (itoa (atoi cpu) ≡ cpu)
unfolding util_at
room_for cpu used m w p =
    let e = lookup-All IsWithinEntry cpu m w.all p.found in
    let room = subst (λ z. HasRoom z (pos used)) e.is_used p.room in
    (e.used, rw (p.found, util_at) e.is_used, omega (arith, room), e.canonical)

raised-IsWithin :
    (cpu : String) (used : ℕ) (m : MappedUtil)
    → IsWithin m
    → Picked m (pos used) cpu
    → IsWithin (raised cpu used m)
raised-IsWithin cpu used m w p =
    let (u, e, h, canonical) = room_for cpu used m w p in
    record {
      distinct = HasDistinctKeys-insert cpu _ m w.distinct;
      all =
          All-insert IsWithinEntry cpu _ m
            (record {
              used = u + used;
              is_used = rw e (add_int_small u used (omega arith));
              within = h;
              canonical = canonical;
            })
            w.all;
    }

raised-Picked :
    (cpu other : String) (used : ℕ) (m : MappedUtil)
    → cpu ≢ other
    → Picked m (pos used) other
    → Picked (raised cpu used m) (pos used) other
raised-Picked cpu other used m h p = record {
  info = p.info;
  found = rw lookup-insert (ground (arith, string_key.same_iff cpu other, p.found));
  room = p.room;
}

-- What the loop over the CPUs that were found leaves: the capacity kept, a reservation for each of
-- them, and their load added.
pub record Takes (params : RtClaimParametersSpec) (cpus : List String) (s t : Picks) : Type 0 where
  pub reserved : List AllocatedCpu
  pub devices : t.devices ≡ s.devices ++ reserved
  pub numbers : map (λ (d : AllocatedCpu). itoa d.id) reserved ≡ cpus
  pub sound :
      All (λ (d : AllocatedCpu). (d.runtime ≡ params.runtime) × (d.period ≡ params.period)) reserved
  pub canonical : All (λ (d : AllocatedCpu). itoa (atoi (itoa d.id)) ≡ itoa d.id) reserved
  pub bears : Bears (λ k. load k reserved) s.util
  pub adds : Adds reserved s.util t.util
  pub within : IsWithin t.util

device : RtClaimParametersSpec → String → AllocatedCpu
device params cpu = record { id = atoi cpu; runtime = params.runtime; period = params.period }

raised-Adds :
    (params : RtClaimParametersSpec) (cpu : String) (m : MappedUtil)
    → itoa (atoi cpu) ≡ cpu
    → Adds (device params cpu ∷ []) m (raised cpu (share params.runtime params.period) m)
unfolding device load
raised-Adds params cpu m c = record {
  at = λ k u e h. rw util_at-insert (
      ground (
        arith,
        c,
        ap (λ (j : String). j == k) c,
        string_key.same_iff cpu k,
        add_int_small u (share params.runtime params.period),
        ap (λ (j : String). util_at j m) {x = cpu} {y = k},
      ));
}

raised-All-Picked :
    (cpu : String) (used : ℕ) (m : MappedUtil) (cpus : List String)
    → All (λ y. cpu ≢ y) cpus
    → All (Picked m (pos used)) cpus
    → All (Picked (raised cpu used m) (pos used)) cpus
raised-All-Picked cpu used m [] d p = tt
raised-All-Picked cpu used m (y ∷ cpus) d p =
    (raised-Picked cpu y used m d.0 p.0, raised-All-Picked cpu used m cpus d.1 p.1)

-- The CPUs can bear what is reserved on one CPU and, after it, on the others.
reserved-Bears :
    (params : RtClaimParametersSpec) (cpu : String) (cs : List AllocatedCpu) (m : MappedUtil)
    → itoa (atoi cpu) ≡ cpu
    → share params.runtime params.period < 950
    → IsWithin m
    → Bears (λ k. load k cs) (raised cpu (share params.runtime params.period) m)
    → Bears (λ k. load k (device params cpu ∷ cs)) m
unfolding load device
reserved-Bears params cpu cs m canonical small w b = record {
  at = λ k.
      let (u, e, h) = util_at-IsWithin m w k in
      let (v, f, l) = b.at k in
      let g = (raised-Adds params cpu m canonical).at k u e (ground arith) in
      let q : v ≡ u + load k (device params cpu ∷ []) = ap pos_part (sym f ∙ g) in
      (u, e, omega (arith, load-cons k (device params cpu) cs));
}

Takes-cons :
    (params : RtClaimParametersSpec) (cpu : String) (cpus : List String) (s t : Picks)
    → itoa (atoi cpu) ≡ cpu
    → share params.runtime params.period < 950
    → IsWithin s.util
    → Takes params cpus (take_cpu params (pos (share params.runtime params.period)) cpu s) t
    → Takes params (cpu ∷ cpus) s t
Takes-cons params cpu cpus s t canonical small w r =
    let used = share params.runtime params.period in
    record {
      reserved = device params cpu ∷ r.reserved;
      devices =
          r.devices
          ∙ unfold take_cpu device in append_assoc s.devices (device params cpu ∷ []) r.reserved;
      numbers = unfold device in rw (canonical, r.numbers) refl;
      sound = unfold device in ((refl, refl), r.sound);
      canonical = unfold device in (rw canonical canonical, r.canonical);
      bears = reserved-Bears params cpu r.reserved s.util canonical small w (
          subst (Bears (λ k. load k r.reserved)) (take_cpu-raised params used cpu s canonical)
            r.bears);
      adds =
          Adds-append (device params cpu ∷ []) r.reserved
            (subst (Adds (device params cpu ∷ []) s.util)
              (sym (take_cpu-raised params used cpu s canonical))
              (raised-Adds params cpu s.util canonical))
            r.adds;
      within = r.within;
    }

pub take_cpus-Takes :
    (params : RtClaimParametersSpec) (cpus : List String) (s : Picks)
    → IsWithin s.util
    → IsDistinct cpus
    → All (Picked s.util (pos (share params.runtime params.period))) cpus
    → (t : Picks) × (take_cpus params
          (pos (share params.runtime params.period))
          (length cpus)
          cpus
          s
        ≡ ok t)
      × Takes params cpus s t
unfolding take_cpus
take_cpus-Takes params [] s w d p = (
  s,
  refl,
  record {
    reserved = [];
    devices = sym (append-nil s.devices);
    numbers = refl;
    sound = tt;
    canonical = tt;
    bears = record {
      at = λ k. let (u, e, h) = util_at-IsWithin s.util w k in (u, e, unfold load in omega arith);
    };
    adds = Adds-nil s.util;
    within = w;
  },
)
take_cpus-Takes params (cpu ∷ cpus) s w d p =
    let used = share params.runtime params.period in
    let (u, e, h, canonical) = room_for cpu used s.util w p.0 in
    let raised_util = take_cpu-raised params used cpu s canonical in
    let (t, run, r) =
      take_cpus-Takes params cpus (take_cpu params (pos used) cpu s)
        (rw raised_util (raised-IsWithin cpu used s.util w p.0)) d.1
        (rw raised_util (raised-All-Picked cpu used s.util cpus d.0 p.1)) in
    (t, run, Takes-cons params cpu cpus s t canonical (omega arith) w r)
