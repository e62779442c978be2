-- ===== src/Lib.antt =====
-- AssetHarbor is a self-hosted service for images and videos, a FastAPI application (app/) on one
-- SQLite database and one directory of files. Its handlers take a process-wide lifecycle lease,
-- revalidate the account of the request against the database, check permissions, and then change
-- rows and files. Large videos arrive in parts: a session is created, parts are staged and copied
-- into one sparse file under per-upload gates and locks, and the finished file is verified and
-- published. Every serialized handler is one function from the state before to the state after, or
-- to the exception that it raises; what runs without a common lock is a step relation.
--
-- Base: helpers. Tests and lists over the native numbers, laws of the tables, exceptions as values
--   (an HTTPException by its status code), header values as lists of code points.
-- Model: app/models/, the database as a record of lists of rows, and the settings of
--   app/core/config.py that the modelled code reads. Times are whole seconds.
-- Access: app/core/auth_scope.py, app/services/teams.py, `fresh_library_user` and the permission
--   tests of app/services/library.py, images.py and videos.py and app/api/routes/videos.py.
-- Ids: app/services/identifiers.py and `_next_api_key_id` of app/api/routes/keys.py.
-- Teams: app/api/routes/teams/team.py and members.py, with `transfer_member_groups` and
--   `delete_team_groups` of app/services/library.py and `dissolve_team_media` of
--   app/services/videos.py.
-- Chunks, Disk, Gates, Sniff: the parts of app/services/videos.py on part geometry and
--   Content-Range, on reserved disk space, on the reference-counted gates and locks, and on the
--   recognition of containers.
-- RateLimit: app/services/ratelimit.py. Range: `_parse_range` and `_range_stream` of
--   app/api/routes/videos.py. Quota: app/services/storage_quota.py.
-- Uploads: sessions of app/services/videos.py. Filename is `_safe_filename`, Create is
--   `create_upload_session`, Bytes what seek and write do to a file, Parts is
--   `_commit_upload_part` and `_verify_parts_and_sha256`, Recovery is `_validated_finalizing_info`,
--   Cancel is `_delete_upload_session_locked` and its callers. Begin, Verify and Complete are the two
--   phases of `complete_upload_session` and the reading of the file between them, Finalize their
--   helpers, Recover the recovery after a crash, and Attempts the requests on one upload as they
--   interleave. Sweep is `cleanup_expired_uploads`. ShortCode: app/services/shortcode.py.
-- Groups: the handlers of app/api/routes/library.py that change media groups or show one medium, and
--   `cleanup_orphan_media_library` and `prepare_groups_for_user_deletion` of app/services/library.py.
-- Traffic: app/services/traffic.py, the aggregation of API traffic and its writer thread.
-- Keys: app/api/routes/keys.py. Media: `update_media_metadata` and `delete_image` of
--   app/services/images.py.
--
-- Arguments stand for what is not in the repository: the clock, random identifiers, free disk
-- space, SHA-256, and the resolution of symbolic links. Headers are decoded as Latin-1 by the
-- server, so that `\d` and `int` see the ten ASCII digits only. `math.ceil(size / chunk_size)` is a
-- division of floats in the code and exact here, which agrees for sizes below 2^53. The loop over
-- the boxes of a container has fuel for the bytes that it looks at, at most 65536, and each round
-- moves on by 8 at least; the loop that streams a range has fuel for the bytes that remain, and
-- each round sends one at least.
--
-- A text of JSON is the object, keys and values, that it parses to, since `json` prints an object of
-- strings so that it parses back. The state of the uploads says which directories and files the file
-- system refuses to delete, since the code ignores that.
--
-- Not modelled: the streaming of a part to its temporary file and the removal of old temporary files,
-- the upload of images, authentication, signed links and the administration of users. Left out:
-- start-up, migrations, middleware, schemas and read-only listings, which are glue to the framework or
-- queries, and the web client.
pub mod Base
pub mod Model
pub mod Access
pub mod Ids
pub mod Teams
pub mod Chunks
pub mod Disk
pub mod Gates
pub mod RateLimit
pub mod ShortCode
pub mod Sniff
pub mod Range
pub mod Quota
pub mod Uploads
pub mod Keys
pub mod Media
pub mod Groups
pub mod Traffic
