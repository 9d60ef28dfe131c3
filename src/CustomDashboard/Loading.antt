-- ===== src/CustomDashboard/Loading.antt =====
-- Which widgets the page holds when another dashboard is selected, and the keys of its queries.
use socblitz.Common.{
  ℕ, zero, suc, String, ◌≡◌, refl, ◌≢◌, true, false, not, ◌||◌, Option, none, some, List, [], ◌==◌,
  eq_iff, eq_refl, arith, ap, ◌∙◌,
}
use socblitz.CustomDashboard.{
  Widget, Saved, Seen, Page, is_builtin, seen, render, vulns_query, saved_query, vulns_view,
}

-- Renders one after another, while the query's data stay as they are.
abbrev pub renders : ℕ → Seen × Page → Option Saved → Seen × Page
renders zero r saved = r
renders (suc n) r saved = renders n (render r saved) saved

-- A render that has seen all there is changes nothing.
render-seen : (p : Page) (saved : Option Saved) → render (seen p saved, p) saved ≡ (seen p saved, p)
unfolding render
render-seen p none = ground (arith, eq_refl p.view)
render-seen p (some s) = ground (arith, eq_refl p.view)

renders-seen :
    (n : ℕ) (p : Page) (saved : Option Saved)
    → renders n (seen p saved, p) saved ≡ (seen p saved, p)
renders-seen zero p saved = refl
renders-seen (suc n) p saved = rw (render-seen p saved) (renders-seen n p saved)

abbrev blank : Page → Page
blank p = record p { widgets = []; dirty = false }

render_switched :
    (before : Seen) (p : Page) (s : Saved)
    → before.view ≢ p.view
    → p.dirty ≡ false
    → render (before, p) (some s) ≡ (seen (blank p) (some s), blank p)
unfolding render
render_switched before p s h d = ground (arith, eq_iff before.view p.view)

-- When another view is selected on a page without edits whose data are in the cache already, the
-- widgets end up empty and stay so however often the page renders, whatever the data hold: the
-- first effect loads them, the second clears them, and neither runs again.
pub cached_view_is_blank :
    (before : Seen) (p : Page) (s : Saved) (n : ℕ)
    → before.view ≢ p.view
    → p.dirty ≡ false
    → (renders (suc n) (before, p) (some s)).1 ≡ record p { widgets = []; dirty = false }
cached_view_is_blank before p s n h d =
    ap (λ r. (renders n r (some s)).1) (render_switched before p s h d)
    ∙ ap (λ r. r.1) (renders-seen n (blank p) (some s))

abbrev holding : Page → List Widget → Page
holding p ws = record p { widgets = ws; dirty = false }

render_fetched :
    (before : Seen) (p : Page) (s : Saved) (ws : List Widget)
    → before.view ≢ p.view
    → s.widgets ≡ some ws
    → render (render (before, p) none) (some s) ≡ (seen (holding p ws) (some s), holding p ws)
unfolding render
render_fetched before p s ws h e = ground (arith, eq_iff before.view p.view, eq_refl p.view)

-- When another view is selected whose data, with their widgets, arrive only after the first render, the
-- page then holds those widgets, without edits, however often it renders.
pub fetched_view_is_loaded :
    (before : Seen) (p : Page) (s : Saved) (ws : List Widget) (n : ℕ)
    → before.view ≢ p.view
    → s.widgets ≡ some ws
    → (renders (suc n) (render (before, p) none) (some s)).1
      ≡ record p { widgets = ws; dirty = false }
fetched_view_is_loaded before p s ws n h e =
    ap (λ r. (renders n r (some s)).1) (render_fetched before p s ws h e)
    ∙ ap (λ r. r.1) (renders-seen n (holding p ws) (some s))

-- While the view stays, edits that are not saved survive every arrival of data.
pub render-dirty :
    (before : Seen) (p : Page) (saved : Option Saved)
    → before.view ≡ p.view
    → p.dirty ≡ true
    → (render (before, p) saved).1 ≡ p
unfolding render
render-dirty before p none h d = ground (arith, eq_iff before.view p.view)
render-dirty before p (some s) h d = ground (arith, eq_iff before.view p.view)

-- Two pages whose queries for the saved dashboard have the same key make the same call, so what the
-- cache holds under the key is what would be asked for.
pub saved_query-key :
    (p p' : Page)
    → (saved_query p).key ≡ (saved_query p').key
    → (saved_query p).call ≡ (saved_query p').call
unfolding saved_query
saved_query-key p p' e = cc

-- For the vulnerability insights two pages that differ in the window of hours have the same key
-- and make different calls.
pub vulns_key_ignores_hours :
    (p : Page) (hours : ℕ)
    → hours ≢ p.hours
    → ((vulns_query (record p { hours = hours })).key ≡ (vulns_query p).key)
      × ((vulns_query (record p { hours = hours })).call ≢ (vulns_query p).call)
unfolding vulns_query
vulns_key_ignores_hours p hours h = (refl, λ e. h (cc))

builtin_views_ne : (◌≡◌ {A = String} "__insights__" "__vulns__") → ⊥
builtin_views_ne e = ground (arith, eq_iff "__insights__" "__vulns__")

-- The saved dashboard is asked for exactly when the view is not the flooding insights; so it is
-- asked for in the vulnerability view too, which is built in and no saved dashboard.
pub saved_query-enabled :
    (p : Page) → ((saved_query p).enabled ≡ (not (is_builtin p) || p.view == vulns_view))
unfolding saved_query is_builtin
saved_query-enabled p =
    ground (arith, eq_iff p.view "__insights__", eq_iff p.view "__vulns__", builtin_views_ne)
