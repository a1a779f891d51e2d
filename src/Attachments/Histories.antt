-- ===== src/Attachments/Histories.antt =====
-- Histories of calls of app/attachments/store.py, by the kinds of their writes.
use weiquan_agent.Prelude.{List, [], ◌∷◌, string_eq}
use weiquan_agent.Attachments.{Platform, Attachments}
use weiquan_agent.Attachments.Lifecycle.{Kind}
use weiquan_agent.Attachments.Writes.{Keeps}
use weiquan_agent.Attachments.Preservation.{
  create_processing-keeps, save_extraction-keeps, save_failure-keeps, confirm-keeps,
}
use weiquan_agent.Attachments.Removal.{
  delete-keeps, purge_expired-keeps, fail_stale_processing-keeps,
}
use weiquan_agent.Attachments.Holding.{reserve-keeps, release-keeps}
use weiquan_agent.Attachments.Using.{bind_reserved-keeps}
use weiquan_agent.Attachments.Calls.{
  Call, upload, extraction, failure, confirmation, deletion, purge, stale, reservation, release_of,
  binding, kind_of, after, run,
}

module _ {Block : Type 0} (p : Platform) (P : Attachments Block → Type 0) where
  pub after-keeps :
      (call : Call Block)
      → Keeps (kind_of p call) P
      → (t : Attachments Block) → P t
      → P (after p call t)
  after-keeps (upload ttl drawn id owner u now) kept t h =
      create_processing-keeps p P ttl drawn id kept owner u now t h
  after-keeps (extraction id result owner now) kept t h =
      save_extraction-keeps p P id result owner now kept t h
  after-keeps (failure id code owner now) kept t h =
      save_failure-keeps p P id code owner now kept t h
  after-keeps (confirmation id text owner now) kept t h =
      confirm-keeps p P id text owner now kept t h
  after-keeps (deletion id owner) kept t h = delete-keeps p P id owner kept t h
  after-keeps (purge owner now limit) kept t h = purge_expired-keeps p P kept owner now limit t h
  after-keeps (stale owner now limit) kept t h =
      fail_stale_processing-keeps p P kept owner now limit t h
  after-keeps (reservation drawn ids owner id now) kept t h =
      reserve-keeps p P drawn ids owner id now kept t h
  after-keeps (release_of id owner now) kept t h = release-keeps p P id owner now kept t h
  after-keeps (binding id owner session turn ids now) kept t h =
      bind_reserved-keeps p P id owner session turn ids now kept t h

  pub run-keeps :
      ((kind : Kind) → Keeps kind P)
      → (calls : List (Call Block)) (t : Attachments Block) → P t
      → P (run p calls t)
  run-keeps kept [] t h = h
  run-keeps kept (call ∷ calls) t h =
      run-keeps kept calls (after p call t) (after-keeps call (kept (kind_of p call)) t h)
