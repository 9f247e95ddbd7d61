-- ===== src/Panels/Metrics/Gradients.antt =====
-- The gradients of the metrics panel's charts, whose ids are shared on the page.
use dspark_edge.Base.{
  ◌≡◌, refl, ap, sym, subst, Bool, true, false, ◌&&◌, Option, none, some, List, [], ◌∷◌, ◌++◌,
  arith, All, if◌then◌else◌, Bool-cases, inl, inr, length, ltb,
}
use dspark_edge.Base.Text.{Text, lit, text_eq, text_eq_iff}
use dspark_edge.Numbers.{Numbers}
use dspark_edge.Store.{SpecStats, SpecResponse, SpecPoint}
use dspark_edge.Panels.Chart.{chart_hex, Series, series, Chart, area_chart, hex_at}
use dspark_edge.Panels.StatCard.{Display, Card, stat_card}
use dspark_edge.Panels.Metrics.{
  Given, Metrics, shown, all_given, metrics_of, metrics_panel, rendered_of, panel_with,
  is_reachable, stats_of,
}

-- Two series with one gradient id name one colour.
abbrev pub AgreesWith : Series → Series → Type 0
AgreesWith a b = a.gradient ≡ b.gradient → a.stop_color ≡ b.stop_color

abbrev pub HasColor : Series → Type 0
HasColor a = (hex : Text) × (a.stop_color ≡ some hex)

abbrev spark_series : {Row N : Type 0} → Option (Chart Row N) → List Series
spark_series none = []
spark_series (some c) = c.drawn

abbrev card_series : {Row N : Type 0} → List (Card Row N) → List Series
card_series [] = []
card_series (c ∷ cs) = spark_series c.spark ++ card_series cs

-- All series that the panel draws: those of the spark lines and of its two charts.
abbrev pub series_of : {N : Type 0} → Metrics N → List Series
series_of m =
    card_series m.cards
    ++ (m.rate_chart.drawn ++ (card_series m.side_cards ++ m.latency_chart.drawn))

same_color : Option Text → Option Text → Bool
same_color none none = true
same_color none (some t) = false
same_color (some s) none = false
same_color (some s) (some t) = text_eq s t

agrees : Series → Series → Bool
agrees a b = if text_eq a.gradient b.gradient then same_color a.stop_color b.stop_color else true

same_color-eq : (a b : Option Text) → same_color a b ≡ true → a ≡ b
unfolding same_color
same_color-eq none none h = refl
same_color-eq none (some t) h = absurd (cc)
same_color-eq (some s) none h = absurd (cc)
same_color-eq (some s) (some t) h = ap (λ x. some x) ((text_eq_iff s t).0 h)

agrees-AgreesWith : (a b : Series) → agrees a b ≡ true → AgreesWith a b
unfolding agrees
agrees-AgreesWith a b h same =
    same_color-eq a.stop_color b.stop_color
      (ground (arith, h, (text_eq_iff a.gradient b.gradient).1 same))

all_agree_with : Series → List Series → Bool
all_agree_with a [] = true
all_agree_with a (b ∷ bs) = agrees a b && all_agree_with a bs

all_agree : List Series → List Series → Bool
all_agree [] bs = true
all_agree (a ∷ xs) bs = all_agree_with a bs && all_agree xs bs

all_agree_with-AgreesWith :
    (a : Series) (bs : List Series) → all_agree_with a bs ≡ true → All (AgreesWith a) bs
unfolding all_agree_with
all_agree_with-AgreesWith a [] h = tt
all_agree_with-AgreesWith a (b ∷ bs) h =
    (agrees-AgreesWith a b (ground (arith, h)), all_agree_with-AgreesWith a bs (ground (arith, h)))

all_agree-AgreesWith :
    (xs bs : List Series) → all_agree xs bs ≡ true → All (λ a. All (AgreesWith a) bs) xs
unfolding all_agree
all_agree-AgreesWith [] bs h = tt
all_agree-AgreesWith (a ∷ xs) bs h = (
  all_agree_with-AgreesWith a bs (ground (arith, h)),
  all_agree-AgreesWith xs bs (ground (arith, h)),
)

has_color : Option Text → Bool
has_color none = false
has_color (some t) = true

all_colored : List Series → Bool
all_colored [] = true
all_colored (a ∷ xs) = has_color a.stop_color && all_colored xs

has_color-HasColor :
    (a : Series) (o : Option Text) → a.stop_color ≡ o → has_color o ≡ true → HasColor a
unfolding has_color
has_color-HasColor a none e h = absurd (cc)
has_color-HasColor a (some t) e h = (t, e)

all_colored-HasColor : (xs : List Series) → all_colored xs ≡ true → All HasColor xs
unfolding all_colored
all_colored-HasColor [] h = tt
all_colored-HasColor (a ∷ xs) h = (
  has_color-HasColor a a.stop_color refl (ground (arith, h)),
  all_colored-HasColor xs (ground (arith, h)),
)

module _ {N : Type 0} (num : Numbers N) (display : Display N) where
  metrics_of-agree :
      (spec : Option (SpecResponse N)) (s : SpecStats N) (history : List (SpecPoint N))
      (g : Given N)
      → let drawn = series_of (metrics_of num display spec s history g) in
        (all_agree drawn drawn ≡ true)
  unfolding area_chart series hex_at chart_hex stat_card all_agree all_agree_with agrees same_color
      text_eq lit
  metrics_of-agree spec s history g = elim (Bool-cases (ltb 1 (length history))) [
    | inl b ↦ rw b refl
    | inr b ↦ rw b refl
  ]

  metrics_of-colored :
      (spec : Option (SpecResponse N)) (s : SpecStats N) (history : List (SpecPoint N))
      (g : Given N)
      → (all_colored (series_of (metrics_of num display spec s history g)) ≡ true)
  unfolding area_chart series hex_at stat_card all_colored has_color lit
  metrics_of-colored spec s history g = elim (Bool-cases (ltb 1 (length history))) [
    | inl b ↦ rw b refl
    | inr b ↦ rw b refl
  ]

  -- What a panel that shows numbers is made of.
  abbrev IsMetricsOf : Option (SpecResponse N) → List (SpecPoint N) → Metrics N → Type 0
  IsMetricsOf spec history m =
      (s : SpecStats N) × (g : Given N) × (m ≡ metrics_of num display spec s history g)

  rendered_of-shown :
      (spec : Option (SpecResponse N)) (s : SpecStats N) (history : List (SpecPoint N))
      (o : Option (Given N)) (m : Metrics N)
      → rendered_of num display spec s history o ≡ shown m
      → IsMetricsOf spec history m
  rendered_of-shown spec s history none m h = absurd (cc)
  rendered_of-shown spec s history (some g) m h = (s, g, cc)

  panel_with-shown :
      (spec : Option (SpecResponse N)) (reachable : Bool) (o : Option (SpecStats N))
      (history : List (SpecPoint N)) (m : Metrics N)
      → panel_with num display spec reachable o history ≡ shown m
      → IsMetricsOf spec history m
  panel_with-shown spec reachable none history m h = absurd (cc)
  panel_with-shown spec false (some s) history m h = absurd (cc)
  panel_with-shown spec true (some s) history m h =
      rendered_of-shown spec s history (all_given s) m h

  -- On a panel that shows numbers, each series of its charts and spark lines has a colour, and where
  -- two of them use the same gradient id on the page, their gradients have the same colour.
  pub panel_gradients :
      (spec : Option (SpecResponse N)) (history : List (SpecPoint N)) (m : Metrics N)
      → metrics_panel num display spec history ≡ shown m
      → All HasColor (series_of m) × All (λ a. All (AgreesWith a) (series_of m)) (series_of m)
  unfolding metrics_panel
  panel_gradients spec history m h =
      let (s, g, same) =
        panel_with-shown spec (is_reachable num display spec) (stats_of spec) history m h in
      subst
        (λ x.
          All HasColor (series_of x) × All (λ a. All (AgreesWith a) (series_of x)) (series_of x))
        (sym same)
        (
          all_colored-HasColor _ (metrics_of-colored spec s history g),
          all_agree-AgreesWith _ _ (metrics_of-agree spec s history g),
        )
