-- ===== src/Finance/Rows.antt =====
-- The rows of a loan: they pay back the principal, and close it.
use chart_solar.Prelude.{
  err, if◌then◌else◌, ℕ, ◌+◌, ◌≡◌, refl, sym, ap, ◌∙◌, inl, inr, true, false, none, List, [], ◌∷◌,
  map, length, ok, arith, Bool-cases, ◌==◌,
}
use chart_solar.Number.{Float, IsExact, ◌⊕◌, ◌≼◌, sum, sum_from}
use chart_solar.Number.Laws
use chart_solar.Finance.{invalid_row}
use chart_solar.Number.Sums.{sum-cons}
use chart_solar.Finance.Due.{due_month, due_months, rows_are_valid, are_payable, repay_months_lem}
use chart_solar.Finance.Amortization.{AmortizationRow, AmortizationSchedule, amortize_variable}

module _ {W : Type 0} ⦃f : Float W⦄ where
  -- the balance after the last row
  abbrev pub last_balance : W → List (AmortizationRow W) → W
  last_balance start [] = start
  last_balance start (row ∷ rows) = last_balance row.balance rows

  abbrev pub payments : List (AmortizationRow W) → List W
  payments rows = map (λ y. y.payment) rows

  abbrev pub principals : List (AmortizationRow W) → List W
  principals rows = map (λ y. y.principal_paid) rows

  abbrev pub interests : List (AmortizationRow W) → List W
  interests rows = map (λ y. y.interest) rows

  -- months in order from `m`
  abbrev pub IsNumbered : ℕ → List (AmortizationRow W) → Type 0
  IsNumbered m [] = Unit
  IsNumbered m (row ∷ rows) = (row.month ≡ m) × IsNumbered (m + 1) rows

module _ {W : Type 0} ⦃f : Float W⦄ (r : IsExact W) where
  -- The rows of `n` months pay back `principal` and no more, at the total interest and payments.
  pub record IsRepaid (n : ℕ) (principal : W) (s : AmortizationSchedule W) : Type 0 where
    pub term : s.term_months ≡ n
    pub row_count : length s.rows ≡ n
    pub numbered : IsNumbered 1 s.rows
    pub paid_back : sum (principals s.rows) ≡ principal
    pub closed : last_balance principal s.rows ≡ f.nought
    pub interest : sum (interests s.rows) ≡ s.total_interest
    pub paid : sum (payments s.rows) ≡ s.total_paid

  payment-due_month :
      (n m : ℕ) (balance rate : W)
      → (due_month n m balance rate).0.payment
        ≡ (due_month n m balance rate).0.principal_paid ⊕ (due_month n m balance rate).0.interest
  unfolding due_month
  payment-due_month n m balance rate = elim (Bool-cases (m == n)) [
    | inl last ↦ rw last refl
    | inr more ↦ rw more (sym (r.sub_add _ _))
  ]

  month-due_month : (n m : ℕ) (balance rate : W) → (due_month n m balance rate).0.month ≡ m
  unfolding due_month
  month-due_month n m balance rate = elim (Bool-cases (m == n)) [
    | inl last ↦ rw last refl
    | inr more ↦ rw more refl
  ]

  -- what a month pays back leaves the rest
  left-due_month :
      (n m : ℕ) (balance rate : W)
      → (due_month n m balance rate).0.principal_paid ⊕ (due_month n m balance rate).1 ≡ balance
  unfolding due_month
  left-due_month n m balance rate = elim (Bool-cases (m == n)) [
    | inl last ↦ rw last (r.add_nought balance)
    | inr more ↦ rw more (Laws.add_sub_left r _ balance)
  ]

  -- the last month
  last-due_month :
      (n m : ℕ) (balance rate : W)
      → m ≡ n
      → ((due_month n m balance rate).0.balance ≡ f.nought)
        × ((due_month n m balance rate).1 ≡ f.nought)
  unfolding due_month
  last-due_month n m balance rate e =
      rw (same m n e) (Laws.max-eq_left r.order f.nought f.nought (r.order.le_refl f.nought), refl)
    where
      same : (a b : ℕ) → a ≡ b → (a == b) ≡ true
      same a b h = ground (arith, h)

  length-due_months :
      (n m : ℕ) (balance total : W) (rates : List W)
      → length (due_months n m balance total rates).rows ≡ length rates
  unfolding due_months
  length-due_months n m balance total [] = refl
  length-due_months n m balance total (rate ∷ rates) =
      omega (arith, length-due_months n (m + 1) _ _ rates)

  due_months-IsNumbered :
      (n m : ℕ) (balance total : W) (rates : List W)
      → IsNumbered m (due_months n m balance total rates).rows
  unfolding due_months
  due_months-IsNumbered n m balance total [] = tt
  due_months-IsNumbered n m balance total (rate ∷ rates) =
      (month-due_month n m balance rate, due_months-IsNumbered n (m + 1) _ _ rates)

  interest-due_months :
      (n m : ℕ) (balance total : W) (rates : List W)
      → total ⊕ sum (interests (due_months n m balance total rates).rows)
        ≡ (due_months n m balance total rates).total_interest
  unfolding due_months sum_from
  interest-due_months n m balance total [] = r.add_nought total
  interest-due_months n m balance total (rate ∷ rates) =
      let (row, left) = due_month n m balance rate in
      let rest = (due_months n (m + 1) left (total ⊕ row.interest) rates).rows in
      ap (λ x. total ⊕ x) (sum-cons r row.interest (interests rest))
      ∙ sym (r.add_assoc total row.interest (sum (interests rest)))
      ∙ interest-due_months n (m + 1) left (total ⊕ row.interest) rates

  payments-due_months :
      (n m : ℕ) (balance total : W) (rates : List W)
      → sum (payments (due_months n m balance total rates).rows)
        ≡ sum (principals (due_months n m balance total rates).rows)
          ⊕ sum (interests (due_months n m balance total rates).rows)
  unfolding due_months sum_from
  payments-due_months n m balance total [] = sym (r.add_nought f.nought)
  payments-due_months n m balance total (rate ∷ rates) =
      let (row, left) = due_month n m balance rate in
      let rest = (due_months n (m + 1) left (total ⊕ row.interest) rates).rows in
      let ps = sum (principals rest) in
      let is = sum (interests rest) in
      sum-cons r row.payment (payments rest)
      ∙ ap (λ x. x ⊕ sum (payments rest)) (payment-due_month n m balance rate)
      ∙ ap (λ x. row.principal_paid ⊕ row.interest ⊕ x)
          (payments-due_months n (m + 1) left (total ⊕ row.interest) rates)
      ∙ Laws.add_swap r row.principal_paid row.interest ps is
      ∙ ap (λ x. x ⊕ (row.interest ⊕ is)) (sym (sum-cons r row.principal_paid (principals rest)))
      ∙ ap (λ x. sum (principals (row ∷ rest)) ⊕ x) (sym (sum-cons r row.interest (interests rest)))

  due_months_closes :
      (n m : ℕ) (balance total rate : W) (rates : List W)
      → m + length rates ≡ n
      → (sum (principals (due_months n m balance total (rate ∷ rates)).rows) ≡ balance)
        × (last_balance balance (due_months n m balance total (rate ∷ rates)).rows ≡ f.nought)
  unfolding due_months sum_from
  due_months_closes n m balance total rate [] h =
      let (row, left) = due_month n m balance rate in
      let (closed, nothing_left) = last-due_month n m balance rate (omega (arith, h)) in
      (
        sum-cons r row.principal_paid []
            ∙ ap (λ x. row.principal_paid ⊕ x) (sym nothing_left)
            ∙ left-due_month n m balance rate,
        closed,
      )
  due_months_closes n m balance total rate (next ∷ rates) h =
      let (row, left) = due_month n m balance rate in
      let rest = (due_months n (m + 1) left (total ⊕ row.interest) (next ∷ rates)).rows in
      let (paid, closed) =
        due_months_closes n (m + 1) left (total ⊕ row.interest) next rates (omega (arith, h)) in
      (
        sum-cons r row.principal_paid (principals rest)
            ∙ ap (λ x. row.principal_paid ⊕ x) paid
            ∙ left-due_month n m balance rate,
        closed,
      )

  -- the schedule of the rows that are due
  abbrev pub due_schedule : W → W → List W → AmortizationSchedule W
  due_schedule principal rate rates =
      let due = due_months (length (rate ∷ rates)) 1 principal f.nought (rate ∷ rates) in
      record {
        principal = principal;
        apr = none;
        term_months = length (rate ∷ rates);
        rows = due.rows;
        total_interest = due.total_interest;
        total_paid = principal ⊕ due.total_interest;
      }

  due_schedule-IsRepaid :
      (principal rate : W) (rates : List W)
      → IsRepaid (length (rate ∷ rates)) principal (due_schedule principal rate rates)
  due_schedule-IsRepaid principal rate rates =
      let n = length (rate ∷ rates) in
      let due = due_months n 1 principal f.nought (rate ∷ rates) in
      let (paid, closed) = due_months_closes n 1 principal f.nought rate rates (omega arith) in
      let interest =
        sym (Laws.nought_add r (sum (interests due.rows)))
        ∙ interest-due_months n 1 principal f.nought (rate ∷ rates) in
      record {
        term = refl;
        row_count = length-due_months n 1 principal f.nought (rate ∷ rates);
        numbered = due_months-IsNumbered n 1 principal f.nought (rate ∷ rates);
        paid_back = paid;
        closed = closed;
        interest = interest;
        paid =
            payments-due_months n 1 principal f.nought (rate ∷ rates)
            ∙ ap (λ x. x ⊕ sum (interests due.rows)) paid
            ∙ ap (λ x. principal ⊕ x) interest;
      }

  -- In exact arithmetic a loan of a principal that is not below zero, at rates of either sign, at
  -- least one and one for each month, of which none that is not tiny has a growth factor of one
  -- over the months left, has a schedule exactly if every row due passes the validation of its
  -- fields, and otherwise fails as an invalid row. The schedule is repaid: in one row for each
  -- month, in order, whose parts of principal sum to the principal, whose last balance is zero,
  -- whose interests sum to the total interest and whose payments sum to the total paid.
  pub amortize_variable_lem :
      (principal rate : W) (rates : List W)
      → f.nought ≼ principal
      → are_payable (length (rate ∷ rates)) 1 (rate ∷ rates) ≡ true
      → (s : AmortizationSchedule W) × (amortize_variable principal (rate ∷ rates) ≡ (
          if rows_are_valid
            (due_months (length (rate ∷ rates)) 1 principal f.nought (rate ∷ rates)).rows
          then ok s
          else err invalid_row))
        × IsRepaid (length (rate ∷ rates)) principal s
  unfolding amortize_variable
  amortize_variable_lem principal rate rates pos payable =
      let n = length (rate ∷ rates) in
      let due = due_months n 1 principal f.nought (rate ∷ rates) in
      (
        due_schedule principal rate rates,
        rw
            (
              not_negative principal pos,
              repay_months_lem n 1 principal f.nought (rate ∷ rates) payable,
            )
            (elim (Bool-cases (rows_are_valid due.rows)) [
              | inl valid ↦ rw valid refl
              | inr refused ↦ rw refused refl
            ]),
        due_schedule-IsRepaid principal rate rates,
      )
    where
      not_negative : (x : W) → f.nought ≼ x → f.lt x f.nought ≡ false
      not_negative x h = ground (arith, r.order.lt-le x f.nought, h)
