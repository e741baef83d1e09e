-- ===== src/Lib.antt =====
-- The core of the croar backend: the rules that decide what an employee is paid and what is withheld,
-- the ledgers of attendance and leave that feed a payroll run, and the parts around it that keep a
-- state of their own: the attendance register, the register of company assets, the exit of employees,
-- the wallet of credits, the scheduling of interviews, the automations of the hiring stages
-- and the rounds of feedback.
--
-- The parts and how they interact. A payroll run takes an employee's salary structure and approved
-- timesheet. The timesheet is seeded from the work calendar and the approved leave, edited by HR and
-- by the employee, and goes through submission and approval. Its loss-of-pay days (or its hours) and
-- the working days of the calendar go into the payslip calculation, which calls the statutory rules of
-- the employee's country and the income tax engine. Attendance, assets, credits and interviews stand
-- beside that chain: each is a table of rows that its operations change. An offboarding draws its
-- checklist from the register of assets and, through its ticks, gives assets back to it. An
-- automation schedules interviews through the same function as the rest of the backend.
--
-- Which file models what, with paths from the repository's root:
--   Statutory    app/services/payroll/statutory.py (compute_pf, compute_esi, compute_pt)
--   Tax          app/services/payroll/tax_engine.py (_slab_tax, compute_tds)
--   Intl         app/services/payroll/statutory_intl.py (country_code, _progressive_tax, compute_kr,
--                compute_jp, compute_us, compute)
--   Payslip      app/services/payroll/payroll_service.py (compute_payslip, compute_hourly_payslip)
--   Calendar     app/services/payroll/calendar_service.py (working_days_in_period and the holidays)
--   Leave        app/services/payroll/leave_service.py (types, balances, the lifecycle of requests)
--   Timesheet    app/services/payroll/timesheet_service.py (entries, aggregates, lifecycle, overlay,
--                attendance files) and get_approved_leave_days of leave_service.py
--   Cycle        app/services/payroll/payroll_service.py (the lifecycle of a payroll cycle)
--   Structures   app/services/payroll/payroll_service.py (apply_template) and the creation of a
--                structure in app/router/enterprise/payroll/payroll.py
--   Attendance   app/router/enterprise/attendance.py (punches, marked days, corrections, shifts)
--   Assets       app/router/enterprise/assets.py (the register, assignments and returns)
--   Offboarding  app/router/enterprise/offboarding.py (the exit, its checklist and what ticking does)
--   Credits      app/services/enterprise/credit_service.py (costs, usage, grants)
--   Interview    app/services/enterprise/interview_service.py (find_available_slot and
--                schedule_candidate_interview)
--   Automation   app/services/enterprise/automation_service.py (what a hiring stage sets off) and
--                initiate_onboarding_process of onboarding_service.py
--   X360         app/router/enterprise/x360.py (the creation of a cycle, the submission of feedback)
--   Words        app/services/payroll/docx_service.py (amount_to_words and what it calls)
--   Prelude, Text, Money, Line, Http are shared: integers and lists, Python's str, amounts and
--   rounding, the lines of a payslip, and the outcome of a service function.
--
-- How state and operations correspond. A row of the database is a record, a table is the list of its
-- rows, a service function is a function from what its queries find to an outcome: the new state, or
-- the error that the code raises, with the state left alone as after a rollback. Ids are numbers,
-- dates are proleptic Gregorian ordinals, days and hours are in hundredths, and amounts are whole
-- paise (hundredths of the currency). The id of a new row, the current date and the actor are
-- arguments. The sessions do not flush by themselves, so that a query does not see the rows that its
-- request has added; a loop that reads what it writes is modelled on the table only where the code
-- flushes or the rows are of different keys. The hours that an edit or a mark gives to a day are decimals
-- of any length: they are counted in units (units to the hundredth) until the commit, where the columns
-- of the entries and of the total round them apart (Timesheet.Hours).
--
-- Arithmetic. Sums and differences of amounts are exact: the context of 28 digits never binds for
-- amounts of the columns' width. It does bind the quotient of paid and working days, and the product
-- with it, which are modelled with the digits of the context (Money.context). A quotient by twelve
-- that is then rounded to two places is taken as the exact fraction. An amount at two places goes
-- through float and str unchanged. Rates and limits that a company configures are exact decimals.
--
-- Loops are structural recursions over lists or over the number of days of a period; the search for
-- the 28 significant digits is bounded by the number of digits it may add. The loop over the times of
-- a day has 1440 rounds, one for each minute; since the duration is a minute or more and a day has
-- that many, the rounds do not run out before the loop ends by its test. The recursion of the Indian
-- grouping has the number itself as its fuel, which each step divides by ten million. The loop over
-- the dates has the 60 rounds that the code gives it. The automations of a stage call themselves for
-- the next stage at most once for each stage of the job, which is their fuel; a call that would run
-- out has a result of its own (unfinished).
--
-- Not modelled: labels, notes, time stamps, versions and the snapshots that are kept for audit; case
-- mapping and stripping of non-ASCII text; a tax regime that is neither OLD nor NEW, which the code
-- treats as NEW; meeting links and the texts of e-mails; listings, summaries and histories that only
-- read; requests that arrive at the same time; and the rest of the backend (the other HTTP routers, the
-- agents, sourcing, the integrations), which is glue around a database and external services.
-- Parameters stand for code that is not the repository's: the rounding of the columns by the database
-- (column), of which it is assumed for the credits that a column holds a nearest hundredth and for the
-- hours of a timesheet nothing, and
-- Python's parsing of dates and decimals in an attendance file and of the numbers in a criterion
-- (float, with the order of its numbers), of which nothing is assumed.
pub mod Prelude
pub mod Text
pub mod Money
pub mod Line
pub mod Statutory
pub mod Tax
pub mod Intl
pub mod Payslip
pub mod Http
pub mod Calendar
pub mod Leave
pub mod Timesheet
pub mod Cycle
pub mod Credits
pub mod Assets
pub mod Attendance
pub mod Automation
pub mod Interview
pub mod Offboarding
pub mod Structures
pub mod Words
pub mod X360
