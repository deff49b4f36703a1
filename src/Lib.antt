-- ===== src/Lib.antt =====
-- The clients of the CSG learning platform: a web app (web/) and a mobile app (mobile/), both in
-- TypeScript, before a Rails API (api/) and an object store. This library models the clients' own
-- logic: what they keep, what they send, and how they come back from failures.
--
-- Prelude and its children hold the shared types: Boolean tests, equality as an interface, integers
-- over the native numbers, JavaScript strings as lists of code units, a stable sort, association
-- lists and arrays of objects with an id. Json holds values of JSON text.
--
-- Chat models mobile/src/lib/message-state.ts: the list of messages of a conversation, as the
-- screens keep it while events arrive. Messages are records with the fields of
-- mobile/src/lib/types.ts, and an optional property is an Option. The clock's reading of a time
-- stamp is a parameter.
--
-- WebApi models fetchApi and its response cache in web/src/lib/api.ts. What the token getter and
-- each request settle to, JSON and the browser's state are parameters. The loop over the attempts
-- is recursion on the attempts that are left; fetch_api_settles says that they are enough.
--
-- Upload models the uploads of recordings: Parts cuts a file (web/src/lib/uploadToS3.ts and
-- mobile/src/lib/recording-upload.ts), Mobile is the whole of the latter file, a small monad that logs
-- the calls to the server and to storage, Pool is a step relation for the web
-- client's workers, Multipart for the calls of the handlers around them, and PartRetry the loop that
-- uploads one part.
-- The loop of buildParts runs on fuel of one round for each part that can begin, and build_parts-Covers
-- says that it is enough.
--
-- Upload.Context models web/src/contexts/UploadContext.tsx: the provider's list and one upload as a
-- machine whose steps are what its promises settle to, among renders and the steps of other uploads.
-- Cancelling and attaching read the list of the last render, as uploadsRef does, and happen where that
-- list shows the row as it is.
--
-- Realtime models the subscriptions of web/src/lib/realtime.ts and mobile/src/lib/cable.ts as machines
-- of callbacks. Voice models mobile/src/lib/voice-draft.ts. Messages models the mentions, the links and the
-- lists of web/src/pages/shared/Messages.tsx over the types of web/src/types/api.ts; its search for mentions runs on fuel of one round for each
-- character, and find_from_enough says that it is enough; root_message_id_for_ends does so for the
-- search for the root of a thread, whose fuel is its first argument.
--
-- Storage models what the mobile app keeps on the device: mobile/src/lib/conversation-storage.ts,
-- mobile/src/lib/submission-storage.ts and mobile/src/lib/learning-cache.ts, over an interface for
-- AsyncStorage with the laws that it documents; Memory is an instance. Session models
-- mobile/src/providers/session-provider.tsx on these stores: its operations take what the server answered
-- and run to their end.
--
-- MessageFormat models web/src/lib/messageFormat.ts: a message's blocks, the fences, the normalization of
-- markdown and the editor's text. The loop over the fences runs on fuel of one round for each character,
-- and parse_from_enough says that it is enough. Queue models web/src/lib/submissionQueue.ts.
--
-- Workspaces models mobile/src/lib/workspaces.ts and mobile/src/providers/workspace-provider.tsx,
-- Attachments mobile/src/lib/attachments.ts, and MobileApi the two loops of mobile/src/lib/api.ts that send
-- a request. WebSession models web/src/contexts/AuthContext.tsx over the cache of WebApi, Dialogs the promise
-- of web/src/contexts/ConfirmContext.tsx, and CodeRunner web/src/lib/codeRunner.ts.
--
-- Learning models the completion of a lesson and the state of submissions in mobile/src/lib/learning.ts;
-- the rounding of the percentage, which is one of floating-point numbers, is a parameter.
--
-- Not modelled: the views, waiting times, progress reports, the recorder of voice drafts, calls
-- that a store refuses, and the API itself, which is in Ruby.
pub mod Prelude
pub mod Json
pub mod Chat
pub mod WebApi
pub mod Storage
pub mod Session
pub mod Workspaces
pub mod Learning
pub mod Upload
pub mod Messages
pub mod MessageFormat
pub mod Queue
pub mod MobileApi
pub mod WebSession
pub mod Dialogs
pub mod Attachments
pub mod CodeRunner
pub mod Realtime
pub mod Voice
