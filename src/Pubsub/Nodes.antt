-- ===== src/Pubsub/Nodes.antt =====
-- src/pubsub.c, the queries and the operations on nodes. Each makes a stanza and adds to the
-- element inside it.
use taningia.Base.{ℕ, zero, suc, none, some}
use taningia.Base.CString.{Bytes, Text, codes}
use taningia.Base.Int.{ℤ, pos, negsuc}
use taningia.Base.Run.{Run, ok, ◌>>=◌}
use taningia.Iri.Print.{decimal}
use taningia.Pubsub.{Pointer, get, set, Tree, Docs, attrib_if, createiq, createiqps}

abbrev pub ns_info : Bytes
ns_info = codes "http://jabber.org/protocol/disco#info"

abbrev pub ns_item : Bytes
ns_item = codes "http://jabber.org/protocol/disco#items"

abbrev pub ns_ps_owner : Bytes
ns_ps_owner = codes "http://jabber.org/protocol/pubsub#owner"

-- `jid != NULL ? jid : from`
abbrev pub subscriber : Text → Text → Text
subscriber none from = from
subscriber (some jid) from = some jid

-- `if (max_items > 0)`, printed.
abbrev pub limit : ℤ → Text
limit (pos zero) = none
limit (pos (suc n)) = some (decimal (pos (suc n)))
limit (negsuc n) = none

module _ (tree : Tree) where
  -- `iks_insert (iks_child (iq), name)`
  abbrev pub inside : Pointer → Bytes → tree.Doc → Pointer × tree.Doc
  inside iq name d = tree.insert (tree.child iq d) name d

  -- `iks_insert_attrib (p, "node", node)`
  abbrev pub node_attrib : Pointer → Text → tree.Doc → tree.Doc
  node_attrib p name d = tree.insert_attrib p (codes "node") name d

  -- `ta_pubsub_query_features`
  unfoldable pub query_features : Text → Text → Docs tree → Run (Pointer × Docs tree)
  unfolding createiq
  query_features from to s = createiq tree from to get ns_info s

  -- `ta_pubsub_query_affiliations`
  unfoldable pub query_affiliations : Text → Text → Docs tree → Run (Pointer × Docs tree)
  unfolding createiqps
  query_affiliations from to s = do
    (iq, s') ← createiqps tree from to get s
    ok (iq, record s' { doc = (inside iq (codes "affiliations") s'.doc).1 })

  -- `ta_pubsub_node_query_info`
  unfoldable pub node_query_info : Text → Text → Text → Docs tree → Run (Pointer × Docs tree)
  unfolding createiq
  node_query_info from to name s = do
    (iq, s') ← createiq tree from to get ns_info s
    ok (iq, record s' { doc = node_attrib (tree.child iq s'.doc) name s'.doc })

  -- `ta_pubsub_node_query_subscriptions`
  unfoldable pub node_query_subscriptions :
      Text → Text → Text → Docs tree → Run (Pointer × Docs tree)
  unfolding createiqps
  node_query_subscriptions from to name s = do
    (iq, s') ← createiqps tree from to get s
    let sub = inside iq (codes "subscriptions") s'.doc
    ok (iq, record s' { doc = attrib_if tree sub.0 (codes "node") name sub.1 })

  -- `ta_pubsub_node_query_affiliations`
  unfoldable pub node_query_affiliations :
      Text → Text → Text → Docs tree → Run (Pointer × Docs tree)
  unfolding createiqps
  node_query_affiliations from to name s = do
    (iq, s') ← createiqps tree from to get s
    let sub = inside iq (codes "affiliations") s'.doc
    ok (iq, record s' { doc = node_attrib sub.0 name sub.1 })

  -- The element of a subscription, under its name.
  abbrev pub subscription :
      Bytes → Text → Text → Text → Text → Docs tree → Run (Pointer × Docs tree)
  subscription kind from to name jid s = do
    (iq, s') ← createiqps tree from to set s
    let sub = inside iq kind s'.doc
    ok (
      iq,
      record s' {
        doc =
            tree.insert_attrib sub.0 (codes "jid") (subscriber jid from)
              (node_attrib sub.0 name sub.1);
      },
    )

  -- `ta_pubsub_node_subscribe`
  unfoldable pub node_subscribe : Text → Text → Text → Text → Docs tree → Run (Pointer × Docs tree)
  unfolding createiqps
  node_subscribe from to name jid s = subscription (codes "subscribe") from to name jid s

  -- `ta_pubsub_node_unsubscribe`
  unfoldable pub node_unsubscribe :
      Text → Text → Text → Text → Docs tree → Run (Pointer × Docs tree)
  unfolding createiqps
  node_unsubscribe from to name jid s = subscription (codes "unsubscribe") from to name jid s

  -- `ta_pubsub_node_query_nodes`
  unfoldable pub node_query_nodes : Text → Text → Text → Docs tree → Run (Pointer × Docs tree)
  unfolding createiq
  node_query_nodes from to name s = do
    (iq, s') ← createiq tree from to get ns_item s
    ok (iq, record s' { doc = attrib_if tree (tree.child iq s'.doc) (codes "node") name s'.doc })

  -- `ta_pubsub_node_items`
  unfoldable pub node_items : Text → Text → Text → ℤ → Docs tree → Run (Pointer × Docs tree)
  unfolding createiqps
  node_items from to name max_items s = do
    (iq, s') ← createiqps tree from to get s
    let items = inside iq (codes "items") s'.doc
    ok (
      iq,
      record s' {
        doc =
            attrib_if tree items.0 (codes "max_items") (limit max_items)
              (node_attrib items.0 name items.1);
      },
    )

  -- The elements `publish` and `item` of a stanza.
  abbrev pub publication : Pointer → Text → Text → tree.Doc → Pointer × tree.Doc
  publication iq name id d =
      let publish = inside iq (codes "publish") d in
      let item = tree.insert publish.0 (codes "item") (node_attrib publish.0 name publish.1) in
      (item.0, attrib_if tree item.0 (codes "id") id item.1)

  -- `ta_pubsub_node_publish_text`; `len` is no negative number.
  unfoldable pub node_publish_text :
      Text → Text → Text → Text → Text → ℕ → Docs tree → Run (Pointer × Docs tree)
  unfolding createiqps
  node_publish_text from to name id body len s = do
    (iq, s') ← createiqps tree from to set s
    let item = publication iq name id s'.doc
    ok (iq, record s' { doc = tree.insert_cdata item.0 body len item.1 })

  -- `ta_pubsub_node_publish_iks`
  unfoldable pub node_publish_iks :
      Text → Text → Text → Text → Pointer → Docs tree → Run (Pointer × Docs tree)
  unfolding createiqps
  node_publish_iks from to name id child s = do
    (iq, s') ← createiqps tree from to set s
    let item = publication iq name id s'.doc
    ok (iq, record s' { doc = tree.insert_node item.0 child item.1 })

  -- `ta_pubsub_node_delete`
  unfoldable pub node_delete : Text → Text → Text → Docs tree → Run (Pointer × Docs tree)
  unfolding createiqps
  node_delete from to name s = do
    (iq, s') ← createiqps tree from to set s
    let ps = tree.child iq s'.doc
    let del =
        tree.new (codes "delete") (tree.insert_attrib ps (codes "xmlns") (some ns_ps_owner) s'.doc)
    ok (iq, record s' { doc = tree.insert_node ps del.0 (node_attrib del.0 name del.1) })

  -- `ta_pubsub_node_delete_item`
  unfoldable pub node_delete_item :
      Text → Text → Text → Text → Docs tree → Run (Pointer × Docs tree)
  unfolding createiqps
  node_delete_item from to name id s = do
    (iq, s') ← createiqps tree from to set s
    let retract = inside iq (codes "retract") s'.doc
    let item = tree.insert retract.0 (codes "item") (node_attrib retract.0 name retract.1)
    ok (iq, record s' { doc = tree.insert_attrib item.0 (codes "id") id item.1 })
