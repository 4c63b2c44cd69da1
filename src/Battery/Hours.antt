-- ===== src/Battery/Hours.antt =====
-- The battery stays within its limits, and the energy balances at the meter.
use mathlib.Core.Path.{subst}
use chart_solar.Prelude.{
  ◌≡◌, refl, sym, ap, ◌∙◌, inl, inr, Bool, true, false, List, [], ◌∷◌, ok, arith, Bool-cases,
  if◌then◌else◌, length, ◌≤◌,
}
use chart_solar.Number.{Float, IsExact, ◌⊕◌, ◌⊖◌, ◌⊗◌, ◌⊘◌, ◌≼◌, min_of, max_of}
use chart_solar.Number.Laws
use chart_solar.Battery.{
  Limits, Flow, Hour, DispatchStrategy, self_consumption, tou_arbitrage, net_import, net_export,
  solar_charge, load_discharge, self_flow, tou_flow, next_soc, settle, dispatch_hours,
}

module _ {W : Type 0} ⦃f : Float W⦄ (r : IsExact W) where
  pub record IsLimits (l : Limits W) : Type 0 where
    pub reserve : l.floor_kwh ≼ l.usable_capacity
    pub charge_nonneg : f.nought ≼ l.max_charge
    pub discharge_nonneg : f.nought ≼ l.max_discharge
    pub efficiency_nonneg : f.nought ≼ l.discharge_efficiency

  pub record IsCharge (l : Limits W) (soc : W) : Type 0 where
    pub from : l.floor_kwh ≼ soc
    pub to : soc ≼ l.usable_capacity

  -- an amount between zero and a cap
  pub record IsWithin (cap x : W) : Type 0 where
    pub from : f.nought ≼ x
    pub to : x ≼ cap

  -- What an hour does: the state of charge stays between the reserve and the capacity, the two
  -- rates are kept, the battery feeds no more than the load, and what comes in is what goes out.
  pub record IsHour (l : Limits W) (net_load : W) (h : Hour W) : Type 0 where
    pub soc : IsCharge l h.soc
    pub charge : IsWithin l.max_charge h.charge
    pub discharge : IsWithin l.max_discharge h.discharge
    pub no_feed : h.discharge ≼ net_import net_load
    pub balance : h.grid_import ⊕ h.discharge ≡ net_load ⊕ (h.charge ⊕ h.grid_export)

  -- the flows of an hour, before the meter
  record IsFlow (l : Limits W) (net_load : W) (y : Flow W) : Type 0 where
    charge : IsWithin l.max_charge y.charge
    discharge : IsWithin l.max_discharge y.discharge
    no_feed : y.discharge ≼ net_import net_load
    from_grid : f.nought ≼ y.grid_charge
    from_solar : y.charge ⊖ y.grid_charge ≼ net_export net_load

  next_soc-IsCharge :
      (l : Limits W) (soc : W) (y : Flow W) → IsLimits l → IsCharge l (next_soc l soc y)
  unfolding next_soc
  next_soc-IsCharge l soc y h =
      let moved =
        if f.lt f.nought y.discharge
        then soc ⊕ y.charge ⊖ y.discharge ⊘ l.discharge_efficiency
        else soc ⊕ y.charge in
      elim (Bool-cases (f.lt moved l.floor_kwh)) [
        | inl below ↦ rw below (record { from = r.order.le_refl l.floor_kwh; to = h.reserve })
        | inr above ↦ elim (Bool-cases (f.lt l.usable_capacity moved)) [
          | inl over ↦
              rw (above, over) (record { from = h.reserve; to = r.order.le_refl l.usable_capacity })
          | inr under ↦
              rw (above, under)
                (record {
                  from = Laws.not-lt r.order moved l.floor_kwh above;
                  to = Laws.not-lt r.order l.usable_capacity moved under;
                })
        ]
      ]

  -- the least of three amounts that are not below zero
  least-IsWithin :
      (a cap c : W)
      → f.nought ≼ a
      → f.nought ≼ cap
      → f.nought ≼ c
      → IsWithin cap (min_of (min_of a cap) c)
  least-IsWithin a cap c h k n = record {
    from = Laws.le-min r.order (min_of a cap) c f.nought (Laws.le-min r.order a cap f.nought h k) n;
    to =
        r.order.le_trans (min_of (min_of a cap) c) (min_of a cap) cap
          (Laws.min-le_left r.order (min_of a cap) c) (Laws.min-le_right r.order a cap);
  }

  least-le : (a cap c : W) → min_of (min_of a cap) c ≼ a
  least-le a cap c =
      r.order.le_trans (min_of (min_of a cap) c) (min_of a cap) a
        (Laws.min-le_left r.order (min_of a cap) c) (Laws.min-le_left r.order a cap)

  nothing-IsWithin : (cap : W) → f.nought ≼ cap → IsWithin cap f.nought
  nothing-IsWithin cap h = record { from = r.order.le_refl f.nought; to = h }

  solar-IsWithin :
      (l : Limits W) (soc net_load : W)
      → IsLimits l
      → IsCharge l soc
      → IsWithin l.max_charge (solar_charge l soc (net_export net_load))
  solar-IsWithin l soc net_load h k =
      least-IsWithin (net_export net_load) l.max_charge (l.usable_capacity ⊖ soc)
        (Laws.max-ge_left r.order f.nought (f.neg net_load)) h.charge_nonneg
        (Laws.sub_nonneg r l.usable_capacity soc k.to)

  load-IsWithin :
      (l : Limits W) (soc net_load : W)
      → IsLimits l
      → IsWithin l.max_discharge (load_discharge l soc (net_import net_load))
  load-IsWithin l soc net_load h =
      let stored = max_of f.nought (soc ⊖ l.floor_kwh) in
      least-IsWithin (net_import net_load) l.max_discharge (stored ⊗ l.discharge_efficiency)
        (Laws.max-ge_left r.order f.nought net_load) h.discharge_nonneg
        (Laws.mul_nonneg r stored l.discharge_efficiency
          (Laws.max-ge_left r.order f.nought (soc ⊖ l.floor_kwh)) h.efficiency_nonneg)

  if-IsWithin :
      (b : Bool) (cap x : W)
      → f.nought ≼ cap
      → IsWithin cap x
      → IsWithin cap (if b then x else f.nought)
  if-IsWithin true cap x h k = k
  if-IsWithin false cap x h k = nothing-IsWithin cap h

  if-le : (b : Bool) (x y : W) → f.nought ≼ y → x ≼ y → (if b then x else f.nought) ≼ y
  if-le true x y h k = k
  if-le false x y h k = h

  import_nonneg : (net_load : W) → f.nought ≼ net_import net_load
  import_nonneg net_load = Laws.max-ge_left r.order f.nought net_load

  export_nonneg : (net_load : W) → f.nought ≼ net_export net_load
  export_nonneg net_load = Laws.max-ge_left r.order f.nought (f.neg net_load)

  -- a charge of which the grid gives nothing
  from_solar_only : (x y : W) → x ≼ y → x ⊖ f.nought ≼ y
  from_solar_only x y h = subst (λ z. z ≼ y) (sym (Laws.sub_nought r x)) h

  self_flow-IsFlow :
      (l : Limits W) (soc net_load : W)
      → IsLimits l
      → IsCharge l soc
      → IsFlow l net_load (self_flow l soc net_load)
  unfolding self_flow
  self_flow-IsFlow l soc net_load h k =
      let sun = f.lt f.nought (net_export net_load) in
      let load = f.lt f.nought (net_import net_load) in
      let charge = solar_charge l soc (net_export net_load) in
      let discharge = load_discharge l soc (net_import net_load) in
      record {
        charge =
            if-IsWithin sun l.max_charge charge h.charge_nonneg (solar-IsWithin l soc net_load h k);
        discharge =
            if-IsWithin load l.max_discharge discharge h.discharge_nonneg
              (load-IsWithin l soc net_load h);
        no_feed =
            if-le load discharge (net_import net_load) (import_nonneg net_load)
              (least-le (net_import net_load) l.max_discharge _);
        from_grid = r.order.le_refl f.nought;
        from_solar = from_solar_only (if sun then charge else f.nought) (net_export net_load) (
            if-le sun charge (net_export net_load) (export_nonneg net_load)
              (least-le (net_export net_load) l.max_charge _));
      }

  tou_flow-IsFlow :
      (l : Limits W) (on_peak : Bool) (soc net_load : W)
      → IsLimits l
      → IsCharge l soc
      → IsFlow l net_load (tou_flow l on_peak soc net_load)
  unfolding tou_flow
  tou_flow-IsFlow l true soc net_load h k =
      let load = f.lt f.nought (net_import net_load) in
      let discharge = load_discharge l soc (net_import net_load) in
      elim (Bool-cases load) [
        | inl needed ↦ rw needed (record {
          charge = nothing-IsWithin l.max_charge h.charge_nonneg;
          discharge = load-IsWithin l soc net_load h;
          no_feed = least-le (net_import net_load) l.max_discharge _;
          from_grid = r.order.le_refl f.nought;
          from_solar = from_solar_only f.nought (net_export net_load) (export_nonneg net_load);
        })
        | inr idle ↦ rw idle (idle-IsFlow l net_load h)
      ]
    where
      idle-IsFlow :
          (l : Limits W) (net_load : W)
          → IsLimits l
          → IsFlow l net_load
              (record { charge = f.nought; discharge = f.nought; grid_charge = f.nought })
      idle-IsFlow l net_load h = record {
        charge = nothing-IsWithin l.max_charge h.charge_nonneg;
        discharge = nothing-IsWithin l.max_discharge h.discharge_nonneg;
        no_feed = import_nonneg net_load;
        from_grid = r.order.le_refl f.nought;
        from_solar = from_solar_only f.nought (net_export net_load) (export_nonneg net_load);
      }
  tou_flow-IsFlow l false soc net_load h k =
      let sun = f.lt f.nought (net_export net_load) in
      let head = l.usable_capacity ⊖ soc in
      let from_grid = min_of l.max_charge head in
      let room = Laws.sub_nonneg r l.usable_capacity soc k.to in
      let given = Laws.le-min r.order l.max_charge head f.nought h.charge_nonneg room in
      elim (Bool-cases sun) [
        | inl sunny ↦ rw sunny (record {
          charge = solar-IsWithin l soc net_load h k;
          discharge = nothing-IsWithin l.max_discharge h.discharge_nonneg;
          no_feed = import_nonneg net_load;
          from_grid = r.order.le_refl f.nought;
          from_solar =
              from_solar_only (solar_charge l soc (net_export net_load)) (net_export net_load)
                (least-le (net_export net_load) l.max_charge head);
        })
        | inr dark ↦ rw dark (record {
          charge = record { from = given; to = Laws.min-le_left r.order l.max_charge head };
          discharge = nothing-IsWithin l.max_discharge h.discharge_nonneg;
          no_feed = import_nonneg net_load;
          from_grid = given;
          from_solar =
              subst (λ z. z ≼ net_export net_load) (sym (Laws.sub_self r from_grid))
                (export_nonneg net_load);
        })
      ]

  -- the load is what is imported less what is exported
  load_parts : (net_load : W) → net_load ⊕ net_export net_load ≡ net_import net_load
  load_parts net_load = elim (r.order.le_total f.nought net_load) [
    | inl importing ↦
        ap (λ x. net_load ⊕ x)
          (Laws.max-eq_left r.order f.nought (f.neg net_load)
            (rw (r.neg_sub net_load) (Laws.sub_nonpos r f.nought net_load importing)))
        ∙ r.add_nought net_load
        ∙ sym (Laws.max-eq_right r.order f.nought net_load importing)
    | inr exporting ↦
        ap (λ x. net_load ⊕ x)
          (Laws.max-eq_right r.order f.nought (f.neg net_load)
              (rw (r.neg_sub net_load) (Laws.sub_nonneg r f.nought net_load exporting))
            ∙ r.neg_sub net_load)
        ∙ Laws.add_sub_left r net_load f.nought
        ∙ sym (Laws.max-eq_left r.order f.nought net_load exporting)
  ]

  -- the import gives back what the battery discharges
  import_back : (i d g : W) → d ≼ i → f.nought ≼ g → max_of f.nought (i ⊖ d ⊕ g) ⊕ d ≡ i ⊕ g
  import_back i d g h k =
      ap (λ x. x ⊕ d)
        (Laws.max-eq_right r.order f.nought (i ⊖ d ⊕ g)
          (Laws.add_nonneg r (i ⊖ d) g (Laws.sub_nonneg r i d h) k))
      ∙ r.add_assoc (i ⊖ d) g d
      ∙ ap (λ x. i ⊖ d ⊕ x) (r.add_comm g d)
      ∙ sym (r.add_assoc (i ⊖ d) d g)
      ∙ ap (λ x. x ⊕ g) (r.sub_add i d)

  -- the charge and the export share the sun and the grid's part
  export_back : (e c g : W) → c ⊖ g ≼ e → c ⊕ max_of f.nought (e ⊖ min_of (c ⊖ g) e) ≡ e ⊕ g
  export_back e c g h =
      ap (λ x. c ⊕ max_of f.nought (e ⊖ x)) (Laws.min-eq_left r.order (c ⊖ g) e h)
      ∙ ap (λ x. c ⊕ x)
          (Laws.max-eq_right r.order f.nought (e ⊖ (c ⊖ g)) (Laws.sub_nonneg r e (c ⊖ g) h))
      ∙ ap (λ x. x ⊕ (e ⊖ (c ⊖ g))) (sym (r.sub_add c g) ∙ r.add_comm (c ⊖ g) g)
      ∙ r.add_assoc g (c ⊖ g) (e ⊖ (c ⊖ g))
      ∙ ap (λ x. g ⊕ x) (Laws.add_sub_left r (c ⊖ g) e)
      ∙ r.add_comm g e

  settle-IsHour :
      (l : Limits W) (soc net_load : W) (y : Flow W)
      → IsLimits l
      → IsFlow l net_load y
      → IsHour l net_load (settle l soc net_load y)
  unfolding settle
  settle-IsHour l soc net_load y h k = record {
    soc = next_soc-IsCharge l soc y h;
    charge = k.charge;
    discharge = k.discharge;
    no_feed = k.no_feed;
    balance =
        import_back (net_import net_load) y.discharge y.grid_charge k.no_feed k.from_grid
        ∙ ap (λ x. x ⊕ y.grid_charge) (sym (load_parts net_load))
        ∙ r.add_assoc net_load (net_export net_load) y.grid_charge
        ∙ ap (λ x. net_load ⊕ x)
            (sym (export_back (net_export net_load) y.charge y.grid_charge k.from_solar));
  }

  -- each hour's entries against its load
  abbrev pub IsDispatch : Limits W → List W → List (Hour W) → Type 0
  IsDispatch l [] [] = Unit
  IsDispatch l [] (h ∷ hours) = ⊥
  IsDispatch l (x ∷ loads) [] = ⊥
  IsDispatch l (x ∷ loads) (h ∷ hours) = IsHour l x h × IsDispatch l loads hours

  pub dispatch_hours-IsDispatch :
      (l : Limits W) (strategy : DispatchStrategy) (peaks : List Bool) (soc : W) (loads : List W)
      → IsLimits l
      → IsCharge l soc
      → (strategy ≡ tou_arbitrage → length loads ≤ length peaks)
      → (hours : List (Hour W)) × (dispatch_hours l strategy peaks soc loads ≡ ok hours)
        × IsDispatch l loads hours
  unfolding dispatch_hours
  dispatch_hours-IsDispatch l strategy peaks soc [] h k masked = ([], refl, tt)
  dispatch_hours-IsDispatch l self_consumption peaks soc (x ∷ loads) h k masked =
      let hour = settle l soc x (self_flow l soc x) in
      let fits = settle-IsHour l soc x (self_flow l soc x) h (self_flow-IsFlow l soc x h k) in
      let (hours, e, rest) =
        dispatch_hours-IsDispatch l self_consumption peaks hour.soc loads h fits.soc
          (λ by_time. absurd (ground (arith, by_time))) in
      (hour ∷ hours, rw (dispatch_hours, e) refl, (fits, rest))
  dispatch_hours-IsDispatch l tou_arbitrage [] soc (x ∷ loads) h k masked =
      absurd (omega (arith, masked refl))
  dispatch_hours-IsDispatch l tou_arbitrage (on_peak ∷ peaks) soc (x ∷ loads) h k masked =
      let y = tou_flow l on_peak soc x in
      let hour = settle l soc x y in
      let fits = settle-IsHour l soc x y h (tou_flow-IsFlow l on_peak soc x h k) in
      let (hours, e, rest) =
        dispatch_hours-IsDispatch l tou_arbitrage peaks hour.soc loads h fits.soc
          (λ by_time. omega (arith, masked refl)) in
      (hour ∷ hours, rw (dispatch_hours, e) refl, (fits, rest))
