-- ===== src/Store/Mirror/Tidy.antt =====
-- A server that does what frontend/src/stores/appStore.ts relies on stays tidy.
use loci_terminal.Common.{◌≡◌, sym, ap, ◌∙◌, String, true, not, Option, filter, is, arith, str_dec}
use loci_terminal.Store.Mirror.Ids.{
  has, has-filter, has_of_filter, has-append_true, has-append_false,
}
use loci_terminal.Store.Mirror.{Server, IsServer, listed, Untouched, IsTidy}

module _ {S : Type 0} (v : Server S) (laws : IsServer v) where
  pub Untouched-IsTidy : {z z' : S} → Untouched v z z' → IsTidy v z → IsTidy v z'
  Untouched-IsTidy {z} {z'} (same, rows) t = record {
    named = λ w h. t.named w (cc);
    orphans = λ j h. rows j ∙ t.orphans j (cc);
  }

  pub workspace_made-IsTidy :
      (name : String) (z : S) → IsTidy v z → IsTidy v (v.create_workspace name z).1
  workspace_made-IsTidy name z t =
      let w = (v.create_workspace name z).0.id in
      let (ne, more, new, old) = laws.workspace_made name z in
      record {
        named = λ x h. elim (str_dec x w) [
          | yes p ↦ rw p ne
          | no p ↦ t.named x (has-append_true x w (listed v z) (λ q. p (sym q)) (cc))
        ];
        orphans = λ j h. elim (str_dec j w) [
          | yes p ↦ rw p new
          | no p ↦ old j p ∙ t.orphans j (has-append_false j w (listed v z) (cc))
        ];
      }

  pub session_made-IsTidy :
      (wid : String) (title : Option String) (z : S)
      → has wid (listed v z) ≡ true
      → IsTidy v z
      → IsTidy v (v.create_session wid title z).1
  session_made-IsTidy wid title z known t =
      let (same, new, old) = laws.session_made wid title z known in
      record { named = λ x h. t.named x (cc); orphans = λ j h. old j (λ p. cc) ∙ t.orphans j (cc) }

  pub workspace_deleted-IsTidy :
      (id : String) (z : S) → IsTidy v z → IsTidy v (v.delete_workspace id z)
  workspace_deleted-IsTidy id z t =
      let (less, gone, old) = laws.workspace_deleted id z in
      record {
        named = λ x h. t.named x (has_of_filter x id (listed v z) (cc));
        orphans = λ j h. elim (str_dec j id) [
          | yes p ↦ rw p gone
          | no p ↦ old j p ∙ t.orphans j (sym (has-filter j id (listed v z) (ground arith)) ∙ (cc))
        ];
      }

  pub session_deleted-IsTidy : (id : String) (z : S) → IsTidy v z → IsTidy v (v.delete_session id z)
  session_deleted-IsTidy id z t =
      let (same, less) = laws.session_deleted id z in
      record {
        named = λ x h. t.named x (cc);
        orphans = λ j h. less j ∙ ap (filter λ i. not (is i id)) (t.orphans j (cc));
      }
