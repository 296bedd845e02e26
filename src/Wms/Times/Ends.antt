-- ===== src/Wms/Times/Ends.antt =====
-- What the two ends of a range of times are read as.
use datacube_ows.Base.{
  ℕ, suc, ◌-◌, if◌then◌else◌, ◌≡◌, ◌≢◌, refl, sym, ◌∙◌, ◌⊎◌, inl, inr, ap, subst, Bool, true, false,
  Option, none, some, String, string_eq, ◌==◌, Result, ok, err, or_raise, ok_injective, >>=-eq-ok,
  Bool-cases, arith,
}
use datacube_ows.Base.Text.{upper, starts_with}
use datacube_ows.Wms.Times.{
  TimeError, parse_error, two_periods, Calendar, Moment, at, lasting, parse_wms_time_string,
  range_of_moments, parse_wms_time_strings,
}

or_raise-ok : {A : Type 0} (x : Option A) (e : TimeError) (a : A) → or_raise x e ≡ ok a → x ≡ some a
or_raise-ok none e a h = absurd (ground arith)
or_raise-ok (some b) e a h = ap some (ok_injective h)

module _ {P : Type 0} (cal : Calendar P) where
  -- A text that is read as a time: the present, or what the package makes of it at the start or at the
  -- end of a range.
  abbrev pub Date : Bool → String → ℕ → Type 0
  Date start text t =
      ((upper text ≡ "PRESENT") × (t ≡ cal.utcnow))
      ⊎ ((upper text ≢ "PRESENT")
          × (starts_with "P" text ≡ false)
          × ((if start then cal.parse_start text else cal.parse_end text) ≡ some t))

  -- A text that is read as a period.
  abbrev pub Period : String → P → Type 0
  Period text p =
      (upper text ≢ "PRESENT") × (starts_with "P" text ≡ true) × (cal.parse_period text ≡ some p)

  -- The two ends of a range: two times; a time, and the microsecond before the end of a period after it;
  -- or the microsecond after the beginning of a period before a time, and this time.
  abbrev pub Ends : String → String → ℕ → ℕ → Type 0
  Ends first last start end =
      (Date true first start × Date false last end)
      ⊎ ((Date true first start × ((p : P) × Period last p × (end ≡ cal.after start p - 1)))
          ⊎ (Date false last end
              × ((p : P) × (f : ℕ) × Period first p
                  × Date true last f
                  × (start ≡ suc (cal.before f p)))))

  abbrev Reads : Bool → String → Moment P → Type 0
  Reads start text (at t) = Date start text t
  Reads start text (lasting p) = Period text p

  parse_wms_time_string-Reads :
      (text : String) (start : Bool) (m : Moment P)
      → parse_wms_time_string cal text start ≡ ok m
      → Reads start text m
  unfolding parse_wms_time_string
  parse_wms_time_string-Reads text start m h = elim (Bool-cases (upper text == "PRESENT")) [
    | inl present ↦
        let e : at cal.utcnow ≡ m = ok_injective (rw present at h) in
        subst (Reads start text) e
          (inl ((string_eq.beq_iff (upper text) "PRESENT").0 present, refl))
    | inr other ↦
        let apart : upper text ≢ "PRESENT" =
          λ e. ground (arith, other, string_eq.beq_iff (upper text) "PRESENT", e) in
        elim (Bool-cases (starts_with "P" text)) [
          | inl period ↦
              let (p, read, e) =
                >>=-eq-ok (or_raise (cal.parse_period text) parse_error) _
                  (rw period at (rw other at h)) in
              subst (Reads start text) (ok_injective e)
                (apart, period, or_raise-ok (cal.parse_period text) parse_error p read)
          | inr time ↦
              let date = if start then cal.parse_start text else cal.parse_end text in
              let (t, read, e) =
                >>=-eq-ok (or_raise date parse_error) _ (rw time at (rw other at h)) in
              subst (Reads start text) (ok_injective e)
                (inr (apart, time, or_raise-ok date parse_error t read))
        ]
  ]

  -- A period and the text of a time.
  lasting_first :
      (first last : String) (p : P) (b start end : ℕ) (zoned wanted : Bool) (m : Moment P)
      → Period first p
      → Date false last b
      → Reads true last m
      → ◌≡◌ {A = Result TimeError (ℕ × ℕ × Bool)}
          (elim m [ at f ↦ ok (suc (cal.before f p), b, wanted) | lasting _ ↦ err two_periods ])
          (ok (start, end, zoned))
      → Ends first last start end
  lasting_first first last p b start end zoned wanted (at f) rp rb rf h =
      let e = ok_injective h in
      inr
        (inr (subst (Date false last) (ap (λ r. r.1) e) rb, (p, f, rp, rf, sym (ap (λ r. r.0) e))))
  lasting_first first last p b start end zoned wanted (lasting q) rp rb rf h = absurd (ground arith)

  range_of_moments-Ends :
      (first last : String) (a b : Moment P) (start end : ℕ) (zoned : Bool)
      → Reads true first a
      → Reads false last b
      → range_of_moments cal last a b ≡ ok (start, end, zoned)
      → Ends first last start end
  unfolding range_of_moments
  range_of_moments-Ends first last (at a) (at b) start end zoned ra rb h =
      let e = ok_injective h in
      inl
        (subst (Date true first) (ap (λ r. r.0) e) ra, subst (Date false last) (ap (λ r. r.1) e) rb)
  range_of_moments-Ends first last (at a) (lasting p) start end zoned ra rb h =
      let e = ok_injective h in
      let same : a ≡ start = ap (λ r. r.0) e in
      inr (
        inl (
          subst (Date true first) same ra,
          (p, rb, sym (ap (λ r. r.1) e) ∙ ap (λ s. cal.after s p - 1) same),
        ))
  range_of_moments-Ends first last (lasting p) (lasting q) start end zoned ra rb h =
      absurd (ground arith)
  range_of_moments-Ends first last (lasting p) (at b) start end zoned ra rb h =
      let (m, read, h1) = >>=-eq-ok (parse_wms_time_string cal last true) _ h in
      lasting_first first last p b start end zoned _ m ra rb
        (parse_wms_time_string-Reads last true m read) h1

  pub parse_wms_time_strings-Ends :
      (first last : String) (start end : ℕ) (zoned : Bool)
      → parse_wms_time_strings cal first last ≡ ok (start, end, zoned)
      → Ends first last start end
  unfolding parse_wms_time_strings
  parse_wms_time_strings-Ends first last start end zoned h =
      let (a, ra, h1) = >>=-eq-ok (parse_wms_time_string cal first true) _ h in
      let (b, rb, h2) = >>=-eq-ok (parse_wms_time_string cal last false) _ h1 in
      range_of_moments-Ends first last a b start end zoned
        (parse_wms_time_string-Reads first true a ra) (parse_wms_time_string-Reads last false b rb)
        h2
