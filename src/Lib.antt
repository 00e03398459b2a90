-- ===== src/Lib.antt =====
-- PressLabz: the rules of a multilingual content management system, and the writes that keep them.
--
-- The program is a monorepo. `packages/core` holds the domain rules: roles and capabilities, the
-- content types with their schemas and their authorization, and what the public site may render.
-- `packages/blocks` holds the vocabulary of a document's body. `packages/db` stores documents in
-- Postgres through transactions that decide again, on locked rows, what a route asked for.
-- `apps/api` is the HTTP service over them, with a gate in front of image processing. The
-- administration, the public site, the themes and the extensions call these parts.
--
-- Access (packages/core/src): Capability is capabilities.ts, Ownership is access.ts and media.ts,
-- Policy and Registry are content-types.ts (`canPerform` is `can_perform`, `operationsForWrite` is
-- `operations_for_write`, `createContentTypeRegistry` is `create_content_type_registry`, and so on
-- in snake case), Visibility is visibility.ts. Publishing and Roles hold proofs.
--
-- Blocks/Vocabulary (packages/blocks/src): the blocks and marks, the assets that a body names, and
-- the rule that block ids differ. Blocks/Editing is editing.ts: `replaceInlineText` with the
-- slices and the merge that it is made of. Blocks/UniqueIds is `withUniqueIds` of the same file. A
-- text is a list of UTF-16 code units there.
--
-- Content (packages/db/src/repositories/contents.ts): Rows and Database are the tables of
-- packages/db/src/schema with the constraints they declare. Transaction is `db.transaction`: a
-- state monad over the tables in which a failure drops every change. Tree is `assertUsableParent`
-- with `subtreeHeight`, Schema the state schema of a content type and the merge of a patch,
-- References the mirror of media references, History the revisions. Write/Update, Write/Create,
-- Write/Delete and Write/Publish are `updateContent`, `createContent`, `deleteContent` and
-- `publishDueContent`, each with every statement that it makes. Listing is `listContents` with the
-- page that the route in apps/api/src/content/routes.ts makes of it. Routes is the handlers of
-- that file that change and delete a document: `patch_content` and `remove_content_by`, from the
-- parsed request to the reply and the announcements. The other modules below these hold proofs,
-- and Tests runs the code at a small site.
--
-- Media/Admission (apps/api/src/media/admission.ts): the gate that `createAdmission` closes over,
-- as a record, and its calls, timers and abort signals as events. Media/Orphans is `deleteMedia`
-- and the orphan table of packages/db/src/repositories/media.ts with `sweepOrphans` of
-- apps/api/src/media/orphans.ts, on two tables and the keys in the store; what the store answers
-- is an argument.
--
-- Cache (packages/cache/src and packages/modules/src/cache-invalidation.ts): Valkey is the server
-- that the site and the API share, with the commands that the scripts send; Tags is tags.ts; Store
-- is store.ts, where `store_script` and `purge_script` are STORE_LUA and PURGE_LUA and `look_up`,
-- `store` and `purge_tags` the calls; Invalidation is the module that purges what a write
-- announces. A script is one step. Names is how the keys are called in Valkey: the list of tags of
-- one page has the name that a page would have whose key ends in `:tags`, so the page keys of the
-- model are those that do not; Kinds is the types of the values. The other modules follow one page
-- through the scripts: what they spare of other pages (Effects), what they write (Filing, Filed),
-- what holds of every page that is there (Coherence), what a purge takes away (Purged, Scripts),
-- runs of calls (Runs), stamps (Stamps, Refused) and lookups (Left, Served).
--
-- Hooks (packages/core/src): Registry and Calls are hooks.ts, with a handler's work as its answer
-- and the time it takes; Events is hooks.events.ts, with `transitionsFor` as `transitions_for`.
-- Order and Filtering hold proofs.
--
-- Api (apps/api/src): ClientIp is http/client-ip.ts, Scheduler is content/scheduler.ts, Probe is
-- health/probe.ts and StoreHealth is the class of that name in rate-limit/valkey-store.ts. Timers
-- and promises are events, in any order.
--
-- What is outside is a parameter. `Valkey` states for each command what Valkey documents of it,
-- and `Json` is `JSON.stringify` with `JSON.parse`, of which the theorems ask that they round
-- trip. `Postgres` reports which constraint a statement violated; it must report one that is
-- violated, and none only if all hold. `Draws` gives the clock and the random ids. `ContentSchema`
-- holds what Zod checks in one block and in a type's metadata. A transaction is one step, since
-- the code locks the rows that it decides on; two concurrent transactions are two steps in some
-- order.
--
-- Ids are numbers and instants are milliseconds. The walk up the tree has ten rounds of fuel and
-- the walk down nine: the code's own guard stops both at a depth of nine, before either runs out.
-- The draws of `withUniqueIds` run on fuel, of which as much as there are blocks is enough where
-- no two draws agree.
--
-- Page keys and tags are kept apart by kind, and a page key that `pageKeyFor` returned stands for
-- itself. Priorities of hooks are natural numbers.
--
-- Not modelled: rendering, `clear` of the page cache and the collector of tags, sessions and
-- hashing, the rate limiter's counter, uploads and the rest of the media repository, and the
-- interfaces, themes, scripts and migrations. They are either library calls and presentation, or
-- parts with rules of their own that this library does not cover.
pub mod Base
pub mod Access
pub mod Api
pub mod Blocks
pub mod Cache
pub mod Content
pub mod Hooks
pub mod Media
