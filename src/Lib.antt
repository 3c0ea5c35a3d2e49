-- ===== src/Lib.antt =====
-- AbleWork, an HR and electronic approval system: four modules of its API, electronic approval
-- (apps/api/src/modules/documents), leave (…/leaves), HR requests (…/requests) and attendance
-- (…/attendances).
--
-- A document is drafted with a line of steps, submitted, and then handled step by step: approvers,
-- agreeing colleagues and collaborating departments form the flow, one step of which is pending at
-- a time; readers may look at once; receivers come after the final approval. The services check the
-- request against the tables, write in one transaction, and emit events.
--
-- An HR request asks for a leave, a shift, a correction of attendance or a change of device. It is
-- approved in rounds, each of which needs a number of approvals that a rule gives; the last one
-- applies the request to the tables that it is about, in the transaction of the approval. Leave is
-- kept in balances by employee, type and year: rules accrue days, administrators grant them, leaves
-- take them, and a daily run accrues and expires. An employee clocks in, which is judged by the day's
-- shift and the company's settings, takes breaks, and clocks out.
--
-- Parts and files:
--   * Base, Errors: shared names, list functions, a stable sort, signed integers, results with error
--     codes.
--   * Access: packages/shared-constants/src/access-level.ts and permissions.ts (`hasLevel`).
--   * Documents/Constants, Types, Helpers: documents.constants.ts, the rows of the tables,
--     documents.helpers.ts.
--   * Documents/Store: the Prisma calls, as functions on the tables.
--   * Documents/Support: approval-support.service.ts. Documents/Progress and Documents/Actions:
--     approval-actions.service.ts; each action is a function named as the method, and its
--     transaction is the function `commit_…`.
--   * Documents/Numbering, Steps: document-steps.service.ts and `renderDocNumber`.
--   * Documents/Drafts: documents.service.ts, and `assertCanUseForm` of document-forms.service.ts.
--   * Documents/Flow: the invariants of the steps, and how they move. Documents/Soundness: what the
--     operations make of them. Documents/Support/Authority and Documents/Steps/Resolve: the right
--     to act, and the resolution of steps. Documents/Tests: runs and the theorems at inputs.
--   * Calendar: the UTC fields of the language's `Date`, by day numbers, with their order and the
--     round trip from a day to its fields and back.
--   * Leaves/Types: the rows. Leaves/Accrual: leave-accrual.service.ts. Leaves/Groups and
--     Leaves/Service: leaves.service.ts and leave-accrual.scheduler.ts. Leaves/Balances, Idempotent,
--     Covered and Months: the theorems. Leaves/Tests: the theorems at inputs.
--   * Requests/Types: the rows and the payload. Requests/LeaveEffects, ShiftEffects and Effects:
--     request-effects.service.ts. Requests/Rounds: requests.helpers.ts and the rounds. Requests/
--     Approval: request-approval.service.ts. Requests/Line and Service: requests.service.ts. Requests/
--     Rules: approval-rules.service.ts. The other files of Requests hold theorems, which Requests/Tests
--     applies at inputs.
--   * Attendances/Types: the rows and the settings. Attendances/ClockIn: attendance-clockin.service.ts.
--     Attendances/Service and Admin: attendances.service.ts. The other files of Attendances hold theorems, which
--     Attendances/Tests applies at inputs.
--
-- State. The tables are lists of rows in a record `Store`, and a call maps a store to a result with
-- the store after it. Lines are nested in documents and steps in lines, as the cascading foreign
-- keys have it. Ids are numbers, times are numbers, texts are lists of code points; the JSON content
-- of a document is opaque. The clock, the ids that the database generates and the one company
-- setting that is read are inputs (`Env`). A read outside a transaction and the transaction behind
-- it see one store here; what other transactions do between the two attempts of a submission is an
-- argument of `submit`. The rows that a call returns are rows of the store after it, so they are not
-- returned once more. Event payloads keep the ids; the actor's name in the audit record is left out.
--
-- In Leaves and Requests, days of leave are counted in hundredths, as the decimal columns keep two
-- places, and may fall below zero; the columns' upper limits are left out. Dates are day numbers,
-- instants milliseconds, both from the year 0, and a date string is a valid one. The server's time
-- zone is a parameter: the year of an instant, and the instant of a date with a time of day. A query
-- that gives no order reads the rows as they stand. A submitted request has its own documents here,
-- with the columns that its approval uses. The search for a department's approver climbs 20 levels,
-- as the counter in the code does; the loop over the rounds of a rule and that over the days of a
-- leave run over numbers known before.
--
-- In Attendances, the first and the last instant of a local day and whether two coordinates lie
-- farther apart than a radius are parameters, and the settings are given as the company has them. The
-- unique index on the shift of a record is part of an insertion. Coordinates of a record, methods,
-- notes and events are left out.
--
-- Not modelled: queries that only read (document-query.service.ts, the listings of the other
-- services), attachments, custom request types, names of events and notifications, and the rest of
-- the API, among it the daily marking of absence, the reminders and the planning of shifts; the user interface; the framework's glue.
pub mod Base
pub mod Access
pub mod Errors
pub mod Calendar
pub mod Leaves
pub mod Requests
pub mod Attendances
pub mod Documents
